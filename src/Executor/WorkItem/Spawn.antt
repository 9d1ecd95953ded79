-- ===== src/Executor/WorkItem/Spawn.antt =====
-- Spawning work-item tasks (src/executor.rs).
use kcom_rs.Prelude.{
  ℕ, suc, ◌≤◌, ◌<◌, ◌≡◌, refl, ap, ◌∙◌, Bool, true, false, not, Option, none, some, [], ◌∷◌, ◌==◌,
  if◌then◌else◌, M, ◌>>=◌, ◌>>◌, arith, pure, when, Bool-cases, inl, inr,
}
use kcom_rs.RefCount.{RefCounter}
use kcom_rs.Status.{
  NtStatus, status_success, status_invalid_parameter, status_insufficient_resources,
}
use kcom_rs.Executor.WorkItem.{Task, TaskContext, allocate, add_ref, release, schedule}
use kcom_rs.Executor.WorkItem.Ops.{
  status_of, enqueued, failed, finished, schedule_lem, add_ref_lem, release_shared, release_last,
}

-- The status and the task; `memory` is whether `allocate` is given memory.
abbrev pub spawn_result : Option (NtStatus × Task) → Option (NtStatus × Option Task)
spawn_result none = none
spawn_result (some (status, t)) = some (status, some t)

abbrev checked : TaskContext → (memory : Bool) → M Task NtStatus → Option (NtStatus × Option Task)
checked context memory body =
    if not context.is_valid
    then some (status_invalid_parameter, none)
    else if not memory
    then some (status_insufficient_resources, none)
    else spawn_result (body allocate)

-- The task when a work item was made, with its references, and when none was.
abbrev pub queued_task : (references : ℕ) → Task
queued_task references = record {
  ref_count = references;
  scheduled = 1;
  completed = 0;
  cancel_requested = 0;
  work_item = some 0;
  created = 1;
  queue = 0 ∷ [];
  deleted = [];
  future_drops = 0;
  frees = 0;
  releases = 0;
  tracker_begins = 1;
  tracker_completes = 0;
}

abbrev pub dropped_task : Task
dropped_task = record {
  ref_count = 0;
  scheduled = 0;
  completed = 0;
  cancel_requested = 0;
  work_item = none;
  created = 0;
  queue = [];
  deleted = [];
  future_drops = 0;
  frees = 1;
  releases = 1;
  tracker_begins = 1;
  tracker_completes = 1;
}

abbrev pub expected :
    TaskContext → (memory : Bool) → (references : ℕ) → Option (NtStatus × Option Task)
expected context memory references =
    if not context.is_valid
    then some (status_invalid_parameter, none)
    else if not memory
    then some (status_insufficient_resources, none)
    else if context.create_work_item 0 == status_success
    then some (status_success, some (queued_task references))
    else some (context.create_work_item 0, some dropped_task)

choose :
    (valid memory : Bool) (x y : Option (NtStatus × Option Task))
    → (valid ≡ true → x ≡ y)
    → (if not valid
        then some (status_invalid_parameter, none)
        else if not memory
        then some (status_insufficient_resources, none)
        else x)
      ≡ (if not valid
          then some (status_invalid_parameter, none)
          else if not memory
          then some (status_insufficient_resources, none)
          else y)
choose true true x y h = h refl
choose true false x y h = refl
choose false memory x y h = refl

module _ (rc : RefCounter) (context : TaskContext) where
  abbrev pub task_body : M Task NtStatus
  task_body = schedule rc context >>= λ status. release rc context >> pure status

  -- `spawn_task` and `spawn_task_tracked`
  unfoldable pub spawn_task : (memory : Bool) → Option (NtStatus × Option Task)
  unfolding allocate
  spawn_task memory = checked context memory task_body

  -- With a handle, which is dropped again if the task was not scheduled.
  abbrev pub cancellable_body : M Task NtStatus
  cancellable_body = do
    add_ref rc
    status ← schedule rc context
    release rc context
    when (not (status == status_success)) (release rc context)
    pure status

  -- `spawn_task_cancellable` and `spawn_task_cancellable_tracked`
  unfoldable pub spawn_task_cancellable : (memory : Bool) → Option (NtStatus × Option Task)
  unfolding allocate
  spawn_task_cancellable memory = checked context memory cancellable_body

  module _ (room : 4 ≤ rc.limit) where
    abbrev held : Task
    held = record allocate { ref_count = 2 }

    success_lem :
        (status_of context 0 == status_success) ≡ true → status_of context 0 ≡ status_success
    success_lem e = ground (arith, e)

    schedules :
        (n : ℕ)
        → suc n < rc.limit
        → (status_of context 0 == status_success) ≡ true
        → schedule rc context (record allocate { ref_count = suc n })
          ≡ some (status_success, enqueued (record allocate { ref_count = suc n }))
    unfolding allocate
    schedules n h e =
        schedule_lem rc context (record allocate { ref_count = suc n }) refl h
        ∙ rw e
            (ap (λ s. some (s, enqueued (record allocate { ref_count = suc n }))) (success_lem e))

    fails :
        (n : ℕ)
        → suc n < rc.limit
        → (status_of context 0 == status_success) ≡ false
        → schedule rc context (record allocate { ref_count = suc n })
          ≡ some (status_of context 0, failed (record allocate { ref_count = suc n }))
    unfolding allocate
    fails n h e = schedule_lem rc context (record allocate { ref_count = suc n }) refl h ∙ rw e refl

    made_lem :
        (status_of context 0 == status_success) ≡ true
        → task_body allocate ≡ some (status_success, record (enqueued allocate) { ref_count = 1 })
    unfolding allocate
    made_lem e =
        rw
          (
            ◌>>◌,
            ◌>>=◌,
            schedules 0 (omega (arith, room)) e,
            release_shared rc context (enqueued allocate) refl 0 refl (omega (arith, room)),
          )
          refl

    failed_lem :
        (status_of context 0 == status_success) ≡ false
        → task_body allocate ≡ some (status_of context 0, finished context (failed allocate))
    unfolding allocate
    failed_lem e =
        rw
          (
            ◌>>◌,
            ◌>>=◌,
            fails 0 (omega (arith, room)) e,
            release_last rc context (failed allocate) refl refl (omega (arith, room)),
          )
          refl

    made_handle_lem :
        (status_of context 0 == status_success) ≡ true
        → cancellable_body allocate
          ≡ some (status_success, record (enqueued allocate) { ref_count = 2 })
    unfolding allocate
    made_handle_lem e =
        rw
          (
            ◌>>◌,
            ◌>>=◌,
            add_ref_lem rc context allocate refl (omega (arith, room)),
            schedules 1 (omega (arith, room)) e,
            release_shared rc context (enqueued held) refl 1 refl (omega (arith, room)),
          )
          refl

    failed_handle_lem :
        (status_of context 0 == status_success) ≡ false
        → cancellable_body allocate ≡ some (status_of context 0, finished context (failed allocate))
    unfolding allocate
    failed_handle_lem e =
        rw
          (
            ◌>>◌,
            ◌>>=◌,
            add_ref_lem rc context allocate refl (omega (arith, room)),
            fails 1 (omega (arith, room)) e,
            release_shared rc context (failed held) refl 0 refl (omega (arith, room)),
            e,
            release_last rc context (failed allocate) refl refl (omega (arith, room)),
          )
          refl

    outcome : (references : ℕ) → Option (NtStatus × Option Task)
    outcome references =
        if context.create_work_item 0 == status_success
        then some (status_success, some (queued_task references))
        else some (context.create_work_item 0, some dropped_task)

    task_outcome : context.is_valid ≡ true → spawn_result (task_body allocate) ≡ outcome 1
    unfolding outcome allocate
    task_outcome v = elim (Bool-cases (context.create_work_item 0 == status_success)) [
      | inl e ↦ rw e (ap spawn_result (made_lem (rw v e)))
      | inr e ↦ rw e (ap spawn_result (failed_lem (rw v e)) ∙ rw v refl)
    ]

    handle_outcome : context.is_valid ≡ true → spawn_result (cancellable_body allocate) ≡ outcome 2
    unfolding outcome allocate
    handle_outcome v = elim (Bool-cases (context.create_work_item 0 == status_success)) [
      | inl e ↦ rw e (ap spawn_result (made_handle_lem (rw v e)))
      | inr e ↦ rw e (ap spawn_result (failed_handle_lem (rw v e)) ∙ rw v refl)
    ]

    -- What the spawning functions return and leave, without a handle and with one, on every branch: no
    -- task if the context is invalid or there is no memory; a task in the queue, with one
    -- reference for the queue and one for the handle, if a work item was made; and else the status of the
    -- attempt, the task freed, its context released and the tracker told, but its future not dropped.
    pub spawn_task_lem :
        (memory : Bool)
        → (spawn_task memory ≡ expected context memory 1)
          × (spawn_task_cancellable memory ≡ expected context memory 2)
    unfolding spawn_task spawn_task_cancellable allocate outcome
    spawn_task_lem memory = (
      choose context.is_valid memory _ (outcome 1) task_outcome,
      choose context.is_valid memory _ (outcome 2) handle_outcome,
    )
