-- ===== src/Executor/Dpc/Inv.antt =====
-- The invariant of a DPC task (src/executor.rs), and the operations that keep it.
use kcom_rs.Prelude.{
  ◌⊎◌, ℕ, zero, suc, ◌+◌, ◌≤◌, ◌<◌, ◌≡◌, refl, Option, ◌==◌, if◌then◌else◌, Returns, arith,
}
use kcom_rs.RefCount.{RefCounter}
use kcom_rs.Executor.Dpc.{Task, Kernel, add_ref, release, queue_dpc, schedule, cancel}
use kcom_rs.Executor.Dpc.Ops.{
  finished, enqueued, rescheduled, cancelled, add_ref_lem, release_shared, release_last,
  queue_dpc_lem, schedule_lem, cancel_lem,
}

-- `n` references are held by wakers, handles and a run of `dpc_routine`, and one by each entry of the
-- kernel's queue. While there are any, the task is not freed; when there are none, it was freed once,
-- its future was dropped once, and the tracker was told once. A wake-up that was accepted is in the
-- queue. `c` is what `completed` says while the task is not freed.
pub record Inv (c n : ℕ) (t : Task) : Type 0 where
  pub counted : t.ref_count ≡ n + t.queued
  pub single : t.queued ≤ 1
  pub flag : t.completed ≤ 1
  pub dropped : t.future_drops ≡ t.completed
  pub freed : t.frees ≡ (if t.ref_count == 0 then 1 else 0)
  pub over : t.frees ≤ t.completed
  pub tracked : t.tracker_completes ≡ t.frees
  pub woken : (t.scheduled ≡ 0) ⊎ (0 < t.queued)
  pub stage : (0 < t.frees) ⊎ (t.completed ≡ c)

abbrev pub Keeps : {A : Type 0} → (c n : ℕ) → Option (A × Task) → Type 0
Keeps c n = Returns (λ _ t. Inv c n t)

more-Inv :
    (c n : ℕ) (t : Task)
    → Inv c (suc n) t
    → Inv c (suc (suc n)) (record t { ref_count = suc t.ref_count })
more-Inv c n t v = ground arith

fewer-Inv :
    (c n k : ℕ) (t : Task)
    → t.ref_count ≡ suc (suc k)
    → Inv c (suc n) t
    → Inv c n (record t { ref_count = suc k })
fewer-Inv c n k t e v = ground arith

finished-Inv : (c n : ℕ) (t : Task) → n + t.queued ≡ 0 → Inv c (suc n) t → Inv c n (finished t)
finished-Inv c n t e v = ground arith

enqueued-Inv : (c n : ℕ) (t : Task) → Inv c (suc n) t → Inv c (suc n) (enqueued t)
enqueued-Inv c n t v = ground arith

rescheduled-Inv : (c n : ℕ) (t : Task) → Inv c (suc n) t → Inv c (suc n) (rescheduled t)
rescheduled-Inv c n t v = ground arith

cancelled-Inv : (c n : ℕ) (t : Task) → Inv c (suc n) t → Inv c (suc n) (cancelled t)
cancelled-Inv c n t v = ground arith

module _ (rc : RefCounter) (kernel : Kernel) (c n : ℕ) (t : Task) (v : Inv c (suc n) t)
    (room : n + 3 ≤ rc.limit) where
  count : t.ref_count ≡ suc (n + t.queued)
  count = omega (arith, v.counted)

  alive : t.frees ≡ 0
  alive = ground (arith, v.freed, count)

  fits : suc (n + t.queued) < rc.limit
  fits = omega (arith, v.single, room)

  pub add_ref-Inv : Keeps c (suc (suc n)) (add_ref rc t)
  add_ref-Inv = rw (add_ref_lem rc t alive (omega (arith, count, fits))) (more-Inv c n t v)

  pub release-Inv : Keeps c n (release rc t)
  release-Inv = go (n + t.queued) refl
    where
      go : (k : ℕ) → n + t.queued ≡ k → Keeps c n (release rc t)
      go zero e =
          rw (release_last rc t alive (omega (arith, count)) v.flag (omega (arith, fits)))
            (finished-Inv c n t e v)
      go (suc k) e =
          rw (release_shared rc t alive k (omega (arith, count)) (omega (arith, fits)))
            (fewer-Inv c n k t (omega (arith, count)) v)

  pub queue_dpc-Inv : Keeps c (suc n) (queue_dpc rc kernel t)
  queue_dpc-Inv =
      rw (queue_dpc_lem rc kernel t (n + t.queued) alive count fits) (enqueued-Inv c n t v)

  pub schedule-Inv : Keeps c (suc n) (schedule rc kernel t)
  schedule-Inv =
      rw (schedule_lem rc kernel t (n + t.queued) alive count fits) (rescheduled-Inv c n t v)

  pub cancel-Inv : Keeps c (suc n) (cancel rc kernel t)
  cancel-Inv = rw (cancel_lem rc kernel t (n + t.queued) alive count fits) (cancelled-Inv c n t v)
