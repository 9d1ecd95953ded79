-- ===== src/Executor/Dpc/Owners.antt =====
-- Who holds references to a DPC task (src/executor.rs), and what ownership allows its holders to do.
use kcom_rs.Prelude.{
  ℕ, suc, ◌+◌, ◌-◌, ◌≤◌, ◌<◌, ◌≡◌, true, Option, none, some, if◌then◌else◌, ◌&&◌, List, [], ◌∷◌,
  ltb, Returns-bind, arith, inl, inr, zero_or_suc,
}
use kcom_rs.RefCount.{RefCounter}
use kcom_rs.Executor.Dpc.{
  Task, Kernel, header, release, schedule, cancel, clone_raw, wake_raw, wake_by_ref_raw, drop_raw,
  handle_cancel, handle_drop, take_cancellation_request,
}
use kcom_rs.Executor.Dpc.Inv.{Inv, Keeps, add_ref-Inv, release-Inv, schedule-Inv, cancel-Inv}
use kcom_rs.Executor.Dpc.Routine.{
  Act, clone_waker, wake, wake_by_ref, drop_waker, drop_handle, take_cancellation, perform,
}

-- The wakers and handles in existence. While `dpc_routine` runs it holds two references, that of the
-- queue entry and that of the context's waker, and lends the waker to the future.
pub record Owners : Type 0 where
  pub wakers : ℕ
  pub handles : ℕ
  pub running : ℕ

abbrev pub total : Owners → ℕ
total o = o.wakers + o.handles + o.running

-- The owners after an act, or `none` if Rust's ownership rules it out: only an owner of a waker can
-- consume it, only an owner or the future that it is lent to can use it by reference. `cap` bounds the
-- number of references that exist at a time.
abbrev pub own : ℕ → Act → Owners → Option Owners
own cap clone_waker o =
    if ltb 0 (o.wakers + o.running) && ltb (total o) cap
    then some (record o { wakers = o.wakers + 1 })
    else none
own cap wake o = if ltb 0 o.wakers then some (record o { wakers = o.wakers - 1 }) else none
own cap wake_by_ref o = if ltb 0 (o.wakers + o.running) then some o else none
own cap drop_waker o = if ltb 0 o.wakers then some (record o { wakers = o.wakers - 1 }) else none
own cap Act.cancel o = if ltb 0 o.handles then some o else none
own cap drop_handle o =
    if ltb 0 o.handles then some (record o { handles = o.handles - 1 }) else none
own cap take_cancellation o = if ltb 0 o.running then some o else none

abbrev pub own_all : ℕ → List Act → Owners → Option Owners
own_all cap [] o = some o
own_all cap (a ∷ acts) o = elim (own cap a o) [ none ↦ none | some o' ↦ own_all cap acts o' ]

module _ (rc : RefCounter) (kernel : Kernel) (cpu : Option ℕ) (c cap : ℕ)
    (room : cap + 2 ≤ rc.limit) where
  -- The operations at a number `m` of references that is not written as a successor.
  module _ (t : Task) (m : ℕ) (small : m ≤ cap) (v : Inv c m t) where
    clone-Inv : (k : ℕ) → k ≡ suc m → 0 < m → m < cap → Keeps c k (clone_raw rc kernel true t)
    unfolding clone_raw
    clone-Inv k e pos h = elim (zero_or_suc m) [
      | inl z ↦ absurd (omega arith)
      | inr (n, p) ↦ rw (e, p) (add_ref-Inv rc kernel c n t (rw p at v) (omega (arith, room)))
    ]

    drop-Inv : (k : ℕ) → m ≡ suc k → Keeps c k (release rc t)
    drop-Inv k e = release-Inv rc kernel c k t (rw e at v) (omega (arith, room))

    schedule_at-Inv : 0 < m → Keeps c m (schedule rc kernel t)
    schedule_at-Inv pos = elim (zero_or_suc m) [
      | inl z ↦ absurd (omega arith)
      | inr (n, p) ↦ rw p (schedule-Inv rc kernel c n t (rw p at v) (omega (arith, room)))
    ]

    cancel_at-Inv : 0 < m → Keeps c m (cancel rc kernel t)
    cancel_at-Inv pos = elim (zero_or_suc m) [
      | inl z ↦ absurd (omega arith)
      | inr (n, p) ↦ rw p (cancel-Inv rc kernel c n t (rw p at v) (omega (arith, room)))
    ]

    take-Inv : 0 < m → Keeps c m (perform rc kernel cpu take_cancellation t)
    unfolding perform take_cancellation_request header
    take-Inv pos = ground (arith, v, small)

  wake-Inv :
      (t : Task) (m k : ℕ) → m ≡ suc k → m ≤ cap → Inv c m t → Keeps c k (wake_raw rc kernel true t)
  unfolding wake_raw
  wake-Inv t m k e small v =
      Returns-bind (λ _ s. Inv c m s) (λ _ s. Inv c k s) (schedule rc kernel t) (λ _. release rc)
        (schedule_at-Inv t m small v (omega arith)) (λ _ s w. drop-Inv s m small w k e)

  -- An act that ownership allows returns, and keeps the invariant.
  pub perform-Inv :
      (a : Act) (o o' : Owners) (t : Task)
      → total o ≤ cap
      → own cap a o ≡ some o'
      → Inv c (total o) t
      → Keeps c (total o') (perform rc kernel cpu a t)
  unfolding perform wake_by_ref_raw drop_raw handle_cancel handle_drop
  perform-Inv clone_waker o o' t small e v =
      clone-Inv t (total o) small v (total o') (ground arith) (ground arith) (ground arith)
  perform-Inv wake o o' t small e v = wake-Inv t (total o) (total o') (ground arith) small v
  perform-Inv wake_by_ref o o' t small e v =
      let same : o ≡ o' = ground arith in
      rw (← same) (schedule_at-Inv t (total o) small v (ground arith))
  perform-Inv drop_waker o o' t small e v = drop-Inv t (total o) small v (total o') (ground arith)
  perform-Inv Act.cancel o o' t small e v =
      let same : o ≡ o' = ground arith in
      rw (← same) (cancel_at-Inv t (total o) small v (ground arith))
  perform-Inv drop_handle o o' t small e v = drop-Inv t (total o) small v (total o') (ground arith)
  perform-Inv take_cancellation o o' t small e v =
      let same : o ≡ o' = ground arith in rw (← same) (take-Inv t (total o) small v (ground arith))
