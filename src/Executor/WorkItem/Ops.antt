-- ===== src/Executor/WorkItem/Ops.antt =====
-- The operations on a work-item task (src/executor.rs), each as one equation.
use kcom_rs.Prelude.{
  ℕ, suc, ◌+◌, ◌<◌, ◌≡◌, Bool, ◌&&◌, some, [], ◌∷◌, ◌++◌, ◌==◌, if◌then◌else◌, arith,
}
use kcom_rs.RefCount.{RefCounter}
use kcom_rs.Status.{NtStatus, status_success, status_invalid_parameter}
use kcom_rs.Executor.WorkItem.{
  Task, TaskContext, header, tracker_complete, free, add_ref, release, give_up, enqueue, schedule,
  cancel,
}

-- The task after its last reference went.
abbrev pub finished : TaskContext → Task → Task
finished context t = record t {
  ref_count = 0;
  frees = 1;
  releases = if context.is_valid then t.releases + 1 else t.releases;
}

-- Whether `schedule` gets a work item, and what it returns if it tries.
abbrev pub status_of : TaskContext → ℕ → NtStatus
status_of context item =
    if context.is_valid then context.create_work_item item else status_invalid_parameter

abbrev pub enqueued : Task → Task
enqueued t = record t {
  ref_count = suc t.ref_count;
  scheduled = 1;
  work_item = some t.created;
  created = t.created + 1;
  queue = t.queue ++ t.created ∷ [];
  tracker_begins = t.tracker_begins + 1;
}

-- An attempt that failed is seen by the tracker only.
abbrev pub failed : Task → Task
failed t = record t {
  scheduled = 0;
  tracker_begins = t.tracker_begins + 1;
  tracker_completes = t.tracker_completes + 1;
}

abbrev pub is_idle : Task → Bool
is_idle t = t.completed == 0 && t.scheduled == 0

abbrev pub scheduled_to : TaskContext → Task → Task
scheduled_to context t =
    if is_idle t
    then (if status_of context t.created == status_success then enqueued t else failed t)
    else t

abbrev pub schedule_status : TaskContext → Task → NtStatus
schedule_status context t = if is_idle t then status_of context t.created else status_success

abbrev pub cancelled_to : TaskContext → Task → Task
cancelled_to context t =
    if t.cancel_requested == 0 then scheduled_to context (record t { cancel_requested = 1 }) else t

module _ (rc : RefCounter) (context : TaskContext) (t : Task) (alive : t.frees ≡ 0) where
  pub add_ref_lem :
      t.ref_count < rc.limit → add_ref rc t ≡ some (tt, record t { ref_count = suc t.ref_count })
  unfolding add_ref header
  add_ref_lem room = ground (arith, rc.add_within t.ref_count room)

  pub release_shared :
      (n : ℕ)
      → t.ref_count ≡ suc (suc n)
      → suc n < rc.limit
      → release rc context t ≡ some (tt, record t { ref_count = suc n })
  unfolding release header
  release_shared n e room = ground (arith, rc.sub_within (suc n) room)

  pub release_last :
      t.ref_count ≡ 1 → 0 < rc.limit → release rc context t ≡ some (tt, finished context t)
  unfolding release free header
  release_last e room = ground (arith, rc.sub_within 0 room)

module _ (rc : RefCounter) (context : TaskContext) where
  give_up_lem :
      (t : Task) (status : NtStatus)
      → t.frees ≡ 0
      → give_up rc context status t
        ≡ some (status, record t { scheduled = 0; tracker_completes = t.tracker_completes + 1 })
  unfolding give_up header tracker_complete
  give_up_lem t status alive = ground (arith, alive)

  enqueue_lem :
      (t : Task)
      → t.frees ≡ 0
      → t.ref_count < rc.limit
      → enqueue rc context t
        ≡ some (
          status_success,
          record t {
            ref_count = suc t.ref_count;
            work_item = some t.created;
            created = t.created + 1;
            queue = t.queue ++ t.created ∷ [];
          },
        )
  unfolding enqueue add_ref header
  enqueue_lem t alive room = ground (arith, alive, rc.add_within t.ref_count room)

  pub schedule_lem :
      (t : Task)
      → t.frees ≡ 0
      → t.ref_count < rc.limit
      → schedule rc context t ≡ some (schedule_status context t, scheduled_to context t)
  unfolding schedule header
  schedule_lem t alive room = ground (
    arith,
    alive,
    give_up_lem (record t { scheduled = 1; tracker_begins = t.tracker_begins + 1 })
        status_invalid_parameter alive,
    give_up_lem (record t { scheduled = 1; tracker_begins = t.tracker_begins + 1 })
        (context.create_work_item t.created) alive,
    enqueue_lem (record t { scheduled = 1; tracker_begins = t.tracker_begins + 1 }) alive room,
  )

  pub cancel_lem :
      (t : Task)
      → t.frees ≡ 0
      → t.ref_count < rc.limit
      → cancel rc context t ≡ some (tt, cancelled_to context t)
  unfolding cancel header
  cancel_lem t alive room =
      ground (arith, alive, schedule_lem (record t { cancel_requested = 1 }) alive room)
