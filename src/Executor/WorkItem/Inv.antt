-- ===== src/Executor/WorkItem/Inv.antt =====
-- The invariant of a work-item task (src/executor.rs), and the operations that keep it.
use kcom_rs.Prelude.{
  ◌⊎◌, ℕ, zero, suc, ◌+◌, ◌≤◌, ◌<◌, ◌≡◌, refl, true, false, Option, [], ◌∷◌, ◌==◌, if◌then◌else◌,
  arith, Bool-cases, inl, inr, Returns, length, length-append,
}
use kcom_rs.RefCount.{RefCounter}
use kcom_rs.Status.{status_success}
use kcom_rs.Executor.WorkItem.{Task, TaskContext, add_ref, release, schedule, cancel}
use kcom_rs.Executor.WorkItem.Ops.{
  finished, status_of, enqueued, failed, is_idle, scheduled_to, cancelled_to, add_ref_lem,
  release_shared, release_last, schedule_lem, cancel_lem,
}

-- `n` references are held by wakers, handles and runs, and one by each item in the kernel's queue; `r`
-- runs are under way. The task is freed once when there are no references, and its context is then
-- released. It is in the queue exactly while it is scheduled. The tracker counts the items in the
-- queue and the runs. The future is dropped when the task completes, and at no other time.
pub record Inv (context : TaskContext) (r n : ℕ) (t : Task) : Type 0 where
  pub counted : t.ref_count ≡ n + length t.queue
  pub exact : length t.queue ≡ t.scheduled
  pub single : t.scheduled ≤ 1
  pub tracked : t.tracker_begins ≡ t.tracker_completes + r + length t.queue
  pub freed : t.frees ≡ (if t.ref_count == 0 then 1 else 0)
  pub released : t.releases ≡ (if context.is_valid then t.frees else 0)
  pub dropped : t.future_drops ≡ t.completed
  pub flag : t.completed ≤ 1

abbrev pub Keeps : {A : Type 0} → TaskContext → (r n : ℕ) → Option (A × Task) → Type 0
Keeps context r n = Returns (λ _ t. Inv context r n t)

module _ (context : TaskContext) (r n : ℕ) (t : Task) (v : Inv context r (suc n) t) where
  pub count : t.ref_count ≡ suc (n + length t.queue)
  count = omega (arith, v.counted)

  pub alive : t.frees ≡ 0
  alive = ground (arith, v.freed, count)

  pub more-Inv : Inv context r (suc (suc n)) (record t { ref_count = suc t.ref_count })
  more-Inv = ground arith

  pub fewer-Inv :
      (k : ℕ) → n + length t.queue ≡ suc k → Inv context r n (record t { ref_count = suc k })
  fewer-Inv k e = ground arith

  pub finished-Inv : n + length t.queue ≡ 0 → Inv context r n (finished context t)
  finished-Inv e = ground (arith, alive)

  enqueued-Inv : is_idle t ≡ true → Inv context r (suc n) (enqueued t)
  enqueued-Inv e = ground (arith, alive, length-append t.queue (t.created ∷ []))

  failed-Inv : is_idle t ≡ true → Inv context r (suc n) (failed t)
  failed-Inv e = ground (arith, alive)

  pub scheduled_to-Inv : Inv context r (suc n) (scheduled_to context t)
  scheduled_to-Inv = elim (Bool-cases (is_idle t)) [
    | inl idle ↦ rw idle (elim (Bool-cases (status_of context t.created == status_success)) [
      | inl made ↦ rw made (enqueued-Inv idle)
      | inr not_made ↦ rw not_made (failed-Inv idle)
    ])
    | inr busy ↦ rw busy v
  ]

pub requested-Inv :
    (context : TaskContext) (r n : ℕ) (t : Task)
    → Inv context r n t
    → Inv context r n (record t { cancel_requested = 1 })
requested-Inv context r n t v = ground arith

module _ (rc : RefCounter) (context : TaskContext) (r n : ℕ) (t : Task)
    (v : Inv context r (suc n) t) (room : n + 2 < rc.limit) where
  pub fits : t.ref_count < rc.limit
  fits = omega (arith, room, count context r n t v, v.exact, v.single)

  pub add_ref-Inv : Keeps context r (suc (suc n)) (add_ref rc t)
  add_ref-Inv =
      rw (add_ref_lem rc context t (alive context r n t v) fits) (more-Inv context r n t v)

  pub release-Inv : Keeps context r n (release rc context t)
  release-Inv = go (n + length t.queue) refl
    where
      go : (k : ℕ) → n + length t.queue ≡ k → Keeps context r n (release rc context t)
      go zero e =
          rw
            (release_last rc context t (alive context r n t v)
              (omega (arith, count context r n t v, e)) (omega (arith, fits)))
            (finished-Inv context r n t v e)
      go (suc k) e =
          rw
            (release_shared rc context t (alive context r n t v) k
              (omega (arith, count context r n t v, e))
              (omega (arith, fits, count context r n t v, e)))
            (fewer-Inv context r n t v k e)

  pub schedule-Inv : Keeps context r (suc n) (schedule rc context t)
  schedule-Inv =
      rw (schedule_lem rc context t (alive context r n t v) fits) (scheduled_to-Inv context r n t v)

  pub cancel-Inv : Keeps context r (suc n) (cancel rc context t)
  cancel-Inv =
      rw (cancel_lem rc context t (alive context r n t v) fits)
        (go (Bool-cases (t.cancel_requested == 0)))
    where
      go :
          (t.cancel_requested == 0 ≡ true) ⊎ (t.cancel_requested == 0 ≡ false)
          → Inv context r (suc n) (cancelled_to context t)
      go (inl e) = rw e (scheduled_to-Inv context r n _ (requested-Inv context r (suc n) t v))
      go (inr e) = rw e v
