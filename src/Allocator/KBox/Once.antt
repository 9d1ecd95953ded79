-- ===== src/Allocator/KBox/Once.antt =====
-- `PinInitOnce` (src/allocator.rs), the initialiser made of a closure that can run once.
use kcom_rs.Prelude.{ℕ, ◌≡◌, refl, none, some, M, ◌>>=◌}
use kcom_rs.Status.{NtStatus, status_unsuccessful}
use kcom_rs.Allocator.Interface.{Allocator}
use kcom_rs.Allocator.KBox.{Outcome, failed, init_once}
use kcom_rs.Allocator.KBox.Life.{InitReturns}

module _ {S E : Type 0} (alloc : Allocator S) (from_status : NtStatus → E) where
  once_lem :
      (init : ℕ → M S (Outcome E (Unit {0}))) (p : ℕ) (s : S) (r : Outcome E (Unit {0})) (s' : S)
      → init p s ≡ some (r, s')
      → init_once from_status (some init) p s ≡ some ((r, none), s')
  unfolding init_once
  once_lem init p s r s' e = rw (◌>>=◌, e) refl

  -- With its closure it keeps what `try_pin_init` relies on, if the closure does.
  pub once-InitReturns :
      (init : ℕ → M S (Outcome E (Unit {0})))
      → ((p : ℕ) (s : S)
          → (r : Outcome E (Unit {0})) × (s' : S) × (init p s ≡ some (r, s'))
            × alloc.Touched p s s')
      → InitReturns alloc (init_once from_status) (some init)
  once-InitReturns init h p s =
      let (r, s', e, t) = h p s in ((r, none), s', once_lem init p s r s' e, t)

  -- Once the closure has run, it fails with STATUS_UNSUCCESSFUL and touches nothing.
  pub spent-InitReturns : InitReturns alloc (init_once from_status) none
  unfolding init_once
  spent-InitReturns p s =
      ((failed (from_status status_unsuccessful), none), s, refl, alloc.Touched_refl p s)
