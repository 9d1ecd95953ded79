-- ===== src/Task/Drops.antt =====
-- `Cancellable` of src/task.rs drops each of its two futures once, whatever happens.
use kcom_rs.Prelude.{ℕ, ◌≡◌, ◌≢◌, refl, Bool, Option, none, some, List, [], ◌∷◌, arith, Poll}
use kcom_rs.Task.{
  CancellableState, running_main, running_cleanup, done, Cancellable, Outcome, returned, panicked,
  undefined, new, try_finally, poll, drop,
}

-- How often each future has been dropped in a state.
abbrev pub MatchesState : CancellableState → ℕ → ℕ → Type 0
MatchesState running_main m c = (m ≡ 0) × (c ≡ 0)
MatchesState running_cleanup m c = (m ≡ 1) × (c ≡ 0)
MatchesState done m c = (m ≡ 1) × (c ≡ 1)

abbrev pub IsConsistent : {M C : Type 0} → Cancellable M C → Type 0
IsConsistent c = MatchesState c.state c.main.drops c.cleanup.drops

-- A poll that ends in a consistent state: with a value, or with a panic if it was done before.
abbrev pub Ends :
    {A M C : Type 0} → CancellableState → Option (Outcome A × Cancellable M C) → Type 0
Ends before none = ⊥
Ends before (some (returned p, c)) = IsConsistent c × (before ≢ done)
Ends before (some (panicked, c)) = IsConsistent c × (before ≡ done)
Ends before (some (undefined, c)) = ⊥

-- What follows a poll: the rest of the history if the poll was defined. A panic leaves the future as
-- it is.
abbrev pub next :
    {A M C : Type 0}
    → Option (Outcome A × Cancellable M C)
    → (Cancellable M C → Option (Cancellable M C))
    → Option (Cancellable M C)
next none rest = none
next (some (returned p, c)) rest = rest c
next (some (panicked, c)) rest = rest c
next (some (undefined, c)) rest = none

abbrev pub DropsOnce : {M C : Type 0} → Option (Cancellable M C) → Type 0
DropsOnce none = ⊥
DropsOnce (some c) = ((drop c).main.drops ≡ 1) × ((drop c).cleanup.drops ≡ 1)

next-DropsOnce :
    {A M C : Type 0} (before : CancellableState) (r : Option (Outcome A × Cancellable M C))
    → Ends before r
    → (rest : Cancellable M C → Option (Cancellable M C))
    → ((c : Cancellable M C) → IsConsistent c → DropsOnce (rest c))
    → DropsOnce (next r rest)
next-DropsOnce before none e rest h = e
next-DropsOnce before (some (returned p, c)) e rest h = h c e.0
next-DropsOnce before (some (panicked, c)) e rest h = h c e.0
next-DropsOnce before (some (undefined, c)) e rest h = absurd e

module _ {A M C : Type 0} (poll_main : M → Poll A × M)
    (poll_cleanup : C → Poll (Unit {0}) × C) where
  -- A poll in a consistent state ends within its two rounds and polls no future that was dropped;
  -- it panics in the state `done` and in no other, and it leaves a consistent state.
  pub poll-IsConsistent :
      (cancelled : Bool) (c : Cancellable M C)
      → IsConsistent c
      → Ends c.state (poll poll_main poll_cleanup cancelled c)
  unfolding poll
  poll-IsConsistent cancelled c v = ground arith

  -- A history of polls, each with the answer to its cancellation request; `none` is an access to a
  -- dropped future, or a loop that does not end.
  pub polls : List Bool → Cancellable M C → Option (Cancellable M C)
  polls [] c = some c
  polls (cancelled ∷ rest) c = next (poll poll_main poll_cleanup cancelled c) (polls rest)

  polls-DropsOnce :
      (answers : List Bool) (c : Cancellable M C) → IsConsistent c → DropsOnce (polls answers c)
  unfolding polls drop
  polls-DropsOnce [] c v = ground arith
  polls-DropsOnce (cancelled ∷ rest) c v =
      next-DropsOnce c.state _ (poll-IsConsistent cancelled c v) (polls rest) (polls-DropsOnce rest)

  -- Whatever the inner futures do, and whenever cancellation is requested, a future made by
  -- `try_finally`, polled any number of times and then dropped, has dropped its main future and its
  -- cleanup future exactly once each.
  pub try_finally-DropsOnce :
      (main : M) (cleanup : C) (answers : List Bool)
      → DropsOnce (polls answers (try_finally main cleanup))
  unfolding try_finally
  try_finally-DropsOnce main cleanup answers =
      polls-DropsOnce answers (new main cleanup) (refl, refl)
