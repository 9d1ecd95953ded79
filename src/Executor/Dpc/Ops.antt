-- ===== src/Executor/Dpc/Ops.antt =====
-- The operations on a DPC task (src/executor.rs), each as one equation.
use kcom_rs.Prelude.{
  ℕ, suc, ◌+◌, ◌≤◌, ◌<◌, ◌≡◌, some, ◌==◌, if◌then◌else◌, ◌>>◌, ◌>>=◌, ◌&&◌, inl, inr, zero_or_suc,
  arith,
}
use kcom_rs.RefCount.{RefCounter}
use kcom_rs.Executor.Dpc.{Task, Kernel, finish, add_ref, release, queue_dpc, schedule, cancel}

-- The task after its last reference went.
abbrev pub finished : Task → Task
finished t = record t {
  ref_count = 0;
  completed = 1;
  future_drops = if t.completed == 0 then t.future_drops + 1 else t.future_drops;
  frees = 1;
  tracker_completes = t.tracker_completes + 1;
}

module _ (rc : RefCounter) (t : Task) (alive : t.frees ≡ 0) where
  pub add_ref_lem :
      t.ref_count < rc.limit → add_ref rc t ≡ some (tt, record t { ref_count = suc t.ref_count })
  unfolding add_ref
  add_ref_lem room = ground (arith, rc.add_within t.ref_count room)

  pub release_shared :
      (n : ℕ)
      → t.ref_count ≡ suc (suc n)
      → suc n < rc.limit
      → release rc t ≡ some (tt, record t { ref_count = suc n })
  unfolding release
  release_shared n e room = ground (arith, rc.sub_within (suc n) room)

  pub release_last :
      t.ref_count ≡ 1 → t.completed ≤ 1 → 0 < rc.limit → release rc t ≡ some (tt, finished t)
  unfolding release finish
  release_last e c room = ground (arith, rc.sub_within 0 room)

-- The task after `queue_dpc`: a reference for the new entry of the kernel's queue, or nothing new.
abbrev pub enqueued : Task → Task
enqueued t = if t.queued == 0 then record t { ref_count = suc t.ref_count; queued = 1 } else t

abbrev pub rescheduled : Task → Task
rescheduled t =
    if t.completed == 0 && t.scheduled == 0 then enqueued (record t { scheduled = 1 }) else t

abbrev pub cancelled : Task → Task
cancelled t = if t.cancel_requested == 0 then rescheduled (record t { cancel_requested = 1 }) else t

module _ (rc : RefCounter) (kernel : Kernel) where
  -- A reference is held, so the transient one that `queue_dpc` takes is not the last.
  pub queue_dpc_lem :
      (t : Task) (n : ℕ)
      → t.frees ≡ 0
      → t.ref_count ≡ suc n
      → suc n < rc.limit
      → queue_dpc rc kernel t ≡ some (tt, enqueued t)
  unfolding queue_dpc
  queue_dpc_lem t n alive e room =
      rw (◌>>◌, ◌>>=◌, add_ref_lem rc t alive (omega arith))
        (elim (zero_or_suc t.queued) [
          | inl empty ↦ ground (arith, kernel.insert_new)
          | inr (k, full) ↦ ground (
            arith,
            kernel.insert_again k,
            release_shared rc (record t { ref_count = suc t.ref_count }) alive n,
          )
        ])

  pub schedule_lem :
      (t : Task) (n : ℕ)
      → t.frees ≡ 0
      → t.ref_count ≡ suc n
      → suc n < rc.limit
      → schedule rc kernel t ≡ some (tt, rescheduled t)
  unfolding schedule
  schedule_lem t n alive e room = ground (arith, queue_dpc_lem (record t { scheduled = 1 }) n)

  pub cancel_lem :
      (t : Task) (n : ℕ)
      → t.frees ≡ 0
      → t.ref_count ≡ suc n
      → suc n < rc.limit
      → cancel rc kernel t ≡ some (tt, cancelled t)
  unfolding cancel
  cancel_lem t n alive e room = ground (arith, schedule_lem (record t { cancel_requested = 1 }) n)
