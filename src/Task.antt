-- ===== src/Task.antt =====
-- src/task.rs: `Cancellable`, the future that `try_finally` builds.
--
-- The two inner futures are a state with a poll function each, and both are parameters. A
-- `ManuallyDrop` field is a value with the number of times that its destructor ran.
pub mod Drops
pub mod Results
use kcom_rs.Prelude.{
  ℕ, zero, suc, ◌+◌, ◌≡◌, Bool, true, false, Option, none, some, ◌==◌, if◌then◌else◌, Poll, ready,
  pending,
}

pub data CancellableState : Type 0 where
  running_main running_cleanup done : CancellableState

pub record Slot (A : Type 0) : Type 0 where
  pub value : A
  pub drops : ℕ

-- `ManuallyDrop::drop`
abbrev pub drop_slot : {A : Type 0} → Slot A → Slot A
drop_slot s = record s { drops = s.drops + 1 }

pub record Cancellable (M C : Type 0) : Type 0 where
  pub state : CancellableState
  pub main : Slot M
  pub cleanup : Slot C

-- What a call of `poll` ends in. `undefined` is the poll of a future that was dropped before.
pub data Outcome (A : Type 0) : Type 0 where
  returned : Poll (Option A) → Outcome A
  panicked : Outcome A
  undefined : Outcome A

-- One round of the loop in `poll`: it goes round again, or leaves the function.
pub data Turn (A M C : Type 0) : Type 0 where
  again : Cancellable M C → Turn A M C
  leave : Outcome A → Cancellable M C → Turn A M C

module _ {M C : Type 0} where
  unfoldable pub new : M → C → Cancellable M C
  new main cleanup = record {
    state = running_main;
    main = record { value = main; drops = 0 };
    cleanup = record { value = cleanup; drops = 0 };
  }

  unfoldable pub try_finally : M → C → Cancellable M C
  unfolding new
  try_finally main cleanup = new main cleanup

  -- `Drop for Cancellable`
  drop_in : CancellableState → Cancellable M C → Cancellable M C
  drop_in running_main c = record c { main = drop_slot c.main; cleanup = drop_slot c.cleanup }
  drop_in running_cleanup c = record c { cleanup = drop_slot c.cleanup }
  drop_in done c = c

  unfoldable pub drop : Cancellable M C → Cancellable M C
  unfolding drop_in
  drop c = drop_in c.state c

module _ {A M C : Type 0} (poll_main : M → Poll A × M)
    (poll_cleanup : C → Poll (Unit {0}) × C) where
  after_main : Cancellable M C → Poll A × M → Turn A M C
  after_main c (ready value, m) = leave (returned (ready (some value))) (record c {
    state = done;
    main = drop_slot (record c.main { value = m });
    cleanup = drop_slot c.cleanup;
  })
  after_main c (pending, m) =
      leave (returned pending) (record c { main = record c.main { value = m } })

  after_cleanup : Cancellable M C → Poll (Unit {0}) × C → Turn A M C
  after_cleanup c (ready _, r) =
      leave (returned (ready none))
        (record c { state = done; cleanup = drop_slot (record c.cleanup { value = r }) })
  after_cleanup c (pending, r) =
      leave (returned pending) (record c { cleanup = record c.cleanup { value = r } })

  -- The match on the state. `cancelled` is what `take_cancellation_request` answers, which is
  -- asked in the state `running_main` only.
  turn_in : CancellableState → Bool → Cancellable M C → Turn A M C
  unfolding after_main after_cleanup
  turn_in running_main cancelled c =
      if cancelled
      then again (record c { state = running_cleanup; main = drop_slot c.main })
      else if c.main.drops == 0
      then after_main c (poll_main c.main.value)
      else leave undefined c
  turn_in running_cleanup cancelled c =
      if c.cleanup.drops == 0
      then after_cleanup c (poll_cleanup c.cleanup.value)
      else leave undefined c
  turn_in done cancelled c = leave panicked c

  -- The loop, on the number of rounds; `none` means that the rounds ran out.
  poll_loop : ℕ → Bool → Cancellable M C → Option (Outcome A × Cancellable M C)
  unfolding turn_in
  poll_loop zero cancelled c = none
  poll_loop (suc n) cancelled c = elim (turn_in c.state cancelled c) [
    | again c' ↦ poll_loop n cancelled c'
    | leave o c' ↦ some (o, c')
  ]

  unfoldable pub poll : Bool → Cancellable M C → Option (Outcome A × Cancellable M C)
  unfolding poll_loop
  poll cancelled c = poll_loop 2 cancelled c
