-- ===== src/Task/Results.antt =====
-- What a poll of `Cancellable` (src/task.rs) returns, and how a cancellation goes.
use kcom_rs.Prelude.{◌≡◌, ◌↔◌, ◌⊎◌, Bool, true, false, Option, none, some, arith, Poll, ready}
use kcom_rs.Task.{running_main, running_cleanup, Cancellable, Outcome, returned, poll}
use kcom_rs.Task.Drops.{IsConsistent}

module _ {A M C : Type 0} (poll_main : M → Poll A × M)
    (poll_cleanup : C → Poll (Unit {0}) × C) where
  abbrev pub outcome_of : Bool → Cancellable M C → Option (Outcome A)
  outcome_of cancelled c = elim (poll poll_main poll_cleanup cancelled c) [
    | none ↦ none
    | some (o, c') ↦ some o
  ]

  -- A poll of a consistent future returns `Some(value)` exactly when the main future was running, no
  -- cancellation was requested and the main future gave that value.
  pub poll-some :
      (cancelled : Bool) (c : Cancellable M C) (value : A)
      → IsConsistent c
      → (outcome_of cancelled c ≡ some (returned (ready (some value)))) ↔ (
          (c.state ≡ running_main)
          × (cancelled ≡ false)
          × ((poll_main c.main.value).0 ≡ ready value))
  unfolding poll
  poll-some cancelled c value v =
      (λ e. (ground arith, ground arith, ground arith), λ h. ground arith)

  -- A poll of a consistent future returns `None` exactly when the cleanup future became ready in it
  -- and the main future had been cancelled: in this poll, or in an earlier one.
  pub poll-none :
      (cancelled : Bool) (c : Cancellable M C)
      → IsConsistent c
      → (outcome_of cancelled c ≡ some (returned (ready none))) ↔ (
          ((c.state ≡ running_main) × (cancelled ≡ true) ⊎ (c.state ≡ running_cleanup))
          × ((poll_cleanup c.cleanup.value).0 ≡ ready tt))
  unfolding poll
  poll-none cancelled c v = (λ e. ground arith, λ h. ground arith)
