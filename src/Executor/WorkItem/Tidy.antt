-- ===== src/Executor/WorkItem/Tidy.antt =====
-- The work items of a task (src/executor.rs) while its wakers and handles are used.
use kcom_rs.Prelude.{
  ℕ, suc, ◌+◌, ◌<◌, ◌≡◌, refl, ap, ◌⊎◌, inl, inr, true, false, ◌==◌, arith, Bool-cases, length,
  Returns, Returns-bind, Returns-map,
}
use kcom_rs.RefCount.{RefCounter}
use kcom_rs.Status.{status_success}
use kcom_rs.Executor.WorkItem.{
  Task, TaskContext, add_ref, cancel, release, schedule, clone_raw, wake_raw, wake_by_ref_raw,
  drop_raw, handle_clone, handle_cancel, handle_drop,
}
use kcom_rs.Executor.WorkItem.Ops.{
  status_of, enqueued, is_idle, scheduled_to, cancelled_to, add_ref_lem, schedule_lem, cancel_lem,
}
use kcom_rs.Executor.WorkItem.Inv.{Inv, alive, fits, more-Inv, scheduled_to-Inv, requested-Inv}
use kcom_rs.Executor.WorkItem.Items.{Idle, Queued, Same, Idle-Same, Queued-Same, release-Same}
use kcom_rs.Executor.WorkItem.Uses.{
  Use, clone_waker, wake, wake_by_ref, drop_waker, clone_handle, cancel_handle, drop_handle,
  perform, references,
}

-- No run is under way: the last item is in the queue, or there is none in use.
abbrev pub Tidy : Task → Type 0
Tidy t = Idle t ⊎ ((k : ℕ) × Queued k t)

Tidy-Same : (t u : Task) → Same t u → Tidy t → Tidy u
Tidy-Same t u s (inl i) = inl (Idle-Same t u s i)
Tidy-Same t u s (inr (k, q)) = inr (k, Queued-Same k t u s q)

abbrev Kept : TaskContext → (r n : ℕ) → Task → Type 0
Kept context r n t = Inv context r n t × Tidy t

enqueued-Queued : (t : Task) → is_idle t ≡ true → Idle t → Queued t.created (enqueued t)
enqueued-Queued t e (q, w, d) = (rw q refl, refl, omega arith, d, ground (arith, e))

scheduled_to-Tidy :
    (context : TaskContext) (r n : ℕ) (t : Task)
    → Inv context r n t
    → Tidy t
    → Tidy (scheduled_to context t)
scheduled_to-Tidy context r n t v (inl i) = elim (Bool-cases (is_idle t)) [
  | inl idle ↦ rw idle (elim (Bool-cases (status_of context t.created == status_success)) [
    | inl made ↦ rw made (inr (t.created, enqueued-Queued t idle i))
    | inr not_made ↦ rw not_made (inl i)
  ])
  | inr busy ↦ rw busy (inl i)
]
scheduled_to-Tidy context r n t v (inr (k, q)) =
    let one : length t.queue ≡ 1 = ap length q.0 in
    let busy : is_idle t ≡ false = ground (arith, v.exact, one) in rw busy (inr (k, q))

module _ (rc : RefCounter) (context : TaskContext) (r n : ℕ) (t : Task)
    (v : Inv context r (suc n) t) (room : n + 2 < rc.limit) where
  schedule-Kept : Tidy t → Returns (λ _ u. Kept context r (suc n) u) (schedule rc context t)
  schedule-Kept i =
      rw (schedule_lem rc context t (alive context r n t v) (fits rc context r n t v room))
        (scheduled_to-Inv context r n t v, scheduled_to-Tidy context r (suc n) t v i)

  release-Kept : Tidy t → Returns (λ _ u. Kept context r n u) (release rc context t)
  release-Kept i =
      Returns-map (λ _ u. Inv context r n u × Same t u) (λ _ u. Kept context r n u)
        (λ _ u p. (p.0, Tidy-Same t u p.1 i)) _ (release-Same rc context r n t v room)

  add_ref-Kept : Tidy t → Returns (λ _ u. Kept context r (suc (suc n)) u) (add_ref rc t)
  add_ref-Kept i =
      rw (add_ref_lem rc context t (alive context r n t v) (fits rc context r n t v room))
        (more-Inv context r n t v, i)

  cancel-Kept : Tidy t → Returns (λ _ u. Kept context r (suc n) u) (cancel rc context t)
  cancel-Kept i =
      rw (cancel_lem rc context t (alive context r n t v) (fits rc context r n t v room))
        (go (Bool-cases (t.cancel_requested == 0)))
    where
      go :
          (t.cancel_requested == 0 ≡ true) ⊎ (t.cancel_requested == 0 ≡ false)
          → Kept context r (suc n) (cancelled_to context t)
      go (inl e) =
          let asked : Inv context r (suc n) (record t { cancel_requested = 1 }) =
            requested-Inv context r (suc n) t v in
          rw e (
            scheduled_to-Inv context r n _ asked,
            scheduled_to-Tidy context r (suc n) (record t { cancel_requested = 1 }) asked i,
          )
      go (inr e) = rw e (v, i)

-- A use keeps the task tidy.
use-Tidy :
    (rc : RefCounter) (context : TaskContext) (r n : ℕ) (t : Task) (u : Use)
    → Inv context r (suc n) t
    → n + 2 < rc.limit
    → Tidy t
    → Returns (λ _ s. Kept context r (references u n) s) (perform rc context u t)
unfolding clone_raw wake_raw wake_by_ref_raw drop_raw handle_clone handle_cancel handle_drop
use-Tidy rc context r n t clone_waker v room i = add_ref-Kept rc context r n t v room i
use-Tidy rc context r n t wake v room i =
    Returns-bind (λ _ s. Kept context r (suc n) s) (λ _ s. Kept context r n s) _ _
      (Returns-bind (λ _ s. Kept context r (suc n) s) (λ _ s. Kept context r (suc n) s) _ _
        (schedule-Kept rc context r n t v room i) (λ _ s w. w))
      (λ _ s w. release-Kept rc context r n s w.0 room w.1)
use-Tidy rc context r n t wake_by_ref v room i =
    Returns-bind (λ _ s. Kept context r (suc n) s) (λ _ s. Kept context r (suc n) s) _ _
      (schedule-Kept rc context r n t v room i) (λ _ s w. w)
use-Tidy rc context r n t drop_waker v room i = release-Kept rc context r n t v room i
use-Tidy rc context r n t clone_handle v room i = add_ref-Kept rc context r n t v room i
use-Tidy rc context r n t cancel_handle v room i = cancel-Kept rc context r n t v room i
use-Tidy rc context r n t drop_handle v room i = release-Kept rc context r n t v room i
