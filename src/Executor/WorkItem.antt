-- ===== src/Executor/WorkItem.antt =====
-- src/executor.rs: the tasks of the work-item executor (`WorkItemTask`).
--
-- The state is one task, with the work items that it has created, numbered in their order. Every
-- access through the task's pointer first checks that the task was not freed.
pub mod Ops
pub mod Inv
pub mod Items
pub mod Uses
pub mod Finish
pub mod Run
pub mod Tidy
pub mod Spawn
pub mod Overwrite
pub mod Contexts
use kcom_rs.Prelude.{
  ℕ, zero, suc, ◌+◌, ◌-◌, Bool, true, false, not, ◌||◌, Option, none, some, List, [], ◌∷◌, ◌++◌,
  ◌==◌, if◌then◌else◌, M, ◌>>=◌, ◌>>◌, pure, lift, get, put, when, Poll, ready, pending,
}
use kcom_rs.RefCount.{RefCounter}
use kcom_rs.Status.{
  NtStatus, status_success, status_invalid_parameter, Result, ok, err,
  status_insufficient_resources,
}

pub record Task : Type 0 where
  pub ref_count : ℕ  -- AtomicU32
  pub scheduled : ℕ  -- AtomicU32
  pub completed : ℕ  -- AtomicU32
  pub cancel_requested : ℕ  -- AtomicU32
  pub work_item : Option ℕ  -- AtomicPtr
  pub created : ℕ  -- how many items the context made
  pub queue : List ℕ  -- the items in the kernel's queue
  pub deleted : List ℕ  -- the items that were deleted, the last first
  pub future_drops : ℕ  -- how often the future was dropped
  pub frees : ℕ  -- how often the allocation was freed
  pub releases : ℕ  -- calls of the context's `release`
  pub tracker_begins : ℕ  -- calls of `tracker_begin`
  pub tracker_completes : ℕ  -- calls of `tracker_complete`

-- The context of the task, a parameter: whether it is valid, and the status of `create_work_item` for
-- each item.
pub record TaskContext : Type 0 where
  pub is_valid : Bool
  pub create_work_item : ℕ → NtStatus

abbrev pub is_deleted : ℕ → List ℕ → Bool
is_deleted item [] = false
is_deleted item (i ∷ is) = (i == item) || is_deleted item is

-- `&*ptr.as_ptr()`
unfoldable pub header : M Task Task
header t = elim t.frees [ zero ↦ some (t, t) | suc n ↦ none ]

-- `tracker_complete`, with the tracker's pointer read before.
unfoldable pub tracker_complete : M Task (Unit {0})
tracker_complete t = some (tt, record t { tracker_completes = t.tracker_completes + 1 })

-- `allocate`, with the context set by the spawning functions.
unfoldable pub allocate : Task
allocate = record {
  ref_count = 1;
  scheduled = 0;
  completed = 0;
  cancel_requested = 0;
  work_item = none;
  created = 0;
  queue = [];
  deleted = [];
  future_drops = 0;
  frees = 0;
  releases = 0;
  tracker_begins = 0;
  tracker_completes = 0;
}

module _ (context : TaskContext) where
  -- `free`
  unfoldable pub free : M Task (Unit {0})
  unfolding header
  free = do
    t ← header
    put (record t { frees = t.frees + 1 })
    u ← get
    when context.is_valid (put (record u { releases = u.releases + 1 }))

module _ (rc : RefCounter) where
  unfoldable pub add_ref : M Task (Unit {0})
  unfolding header
  add_ref = do
    t ← header
    (left, count) ← lift (rc.add t.ref_count)
    put (record t { ref_count = left })

  module _ (context : TaskContext) where
    unfoldable pub release : M Task (Unit {0})
    unfolding header
    release = do
      t ← header
      (left, count) ← lift (rc.sub t.ref_count)
      put (record t { ref_count = left })
      when (count == 0) (free context)

    -- The end of `schedule` when there is no work item.
    give_up : NtStatus → M Task NtStatus
    unfolding header tracker_complete
    give_up status = do t ← header; put (record t { scheduled = 0 }); tracker_complete; pure status

    -- The end of `schedule` once the item was created.
    enqueue : M Task NtStatus
    unfolding header add_ref
    enqueue = do
      t ← header
      put (record t { work_item = some t.created; created = t.created + 1 })
      add_ref
      u ← header
      put (record u { queue = u.queue ++ t.created ∷ [] })
      pure status_success

    unfoldable pub schedule : M Task NtStatus
    unfolding header give_up enqueue
    schedule = do
      t ← header
      if not (t.completed == 0)
          then pure status_success
          else if not (t.scheduled == 0)
          then pure status_success
          else put (record t { scheduled = 1; tracker_begins = t.tracker_begins + 1 })
            >> (if not context.is_valid
                then give_up status_invalid_parameter
                else if context.create_work_item t.created == status_success
                then enqueue
                else give_up (context.create_work_item t.created))

    unfoldable pub cancel : M Task (Unit {0})
    unfolding header
    cancel = do
      t ← header
      when (t.cancel_requested == 0)
          (put (record t { cancel_requested = 1 }) >> (schedule >>= λ status. pure tt))

    -- The functions of `RAW_WAKER_VTABLE`. A waker's pointer is null or points at the task.
    unfoldable pub clone_raw : (non_null : Bool) → M Task (Unit {0})
    clone_raw non_null = when non_null add_ref

    unfoldable pub wake_raw : (non_null : Bool) → M Task (Unit {0})
    wake_raw non_null = when non_null (schedule >>= (λ status. pure tt) >> release)

    unfoldable pub wake_by_ref_raw : (non_null : Bool) → M Task (Unit {0})
    wake_by_ref_raw non_null = when non_null (schedule >>= λ status. pure tt)

    unfoldable pub drop_raw : (non_null : Bool) → M Task (Unit {0})
    drop_raw non_null = when non_null release

    -- `WorkItemCancelHandle`: making one, `clone`, `cancel`, `is_cancelled`, and its `Drop`.
    unfoldable pub handle_new : M Task (Unit {0})
    handle_new = add_ref

    unfoldable pub handle_clone : (non_null : Bool) → M Task (Unit {0})
    handle_clone non_null = when non_null add_ref

    unfoldable pub handle_cancel : (non_null : Bool) → M Task (Unit {0})
    handle_cancel non_null = when non_null cancel

    unfoldable pub handle_is_cancelled : (non_null : Bool) → M Task Bool
    unfolding header
    handle_is_cancelled false = pure false
    handle_is_cancelled true = do t ← header; pure (not (t.cancel_requested == 0))

    unfoldable pub handle_drop : (non_null : Bool) → M Task (Unit {0})
    handle_drop non_null = when non_null release

    -- The future is complete.
    pub complete : M Task (Unit {0})
    unfolding header
    complete = do t ← header; put (record t { completed = 1; future_drops = t.future_drops + 1 })

    settle : Poll (Unit {0}) → M Task (Unit {0})
    unfolding complete
    settle (ready u) = complete
    settle pending = pure tt

    -- `poll`, with the waker of the context, which is made and dropped in it. `during` is the future's
    -- `poll`, with all that it does to the task.
    poll_task : (during : M Task (Poll (Unit {0}))) → M Task (Unit {0})
    unfolding settle add_ref drop_raw
    poll_task during = add_ref >> (during >>= settle) >> drop_raw true

    or_else : Option ℕ → Option ℕ → Option ℕ
    or_else none fallback = fallback
    or_else (some item) fallback = some item

    -- An item that was deleted before is freed memory.
    delete_work_item : Option ℕ → M Task (Unit {0})
    delete_work_item none t = some (tt, t)
    delete_work_item (some item) t =
        if is_deleted item t.deleted
        then none
        else some (tt, record t { deleted = item ∷ t.deleted })

    -- The end of `run`: the item is deleted, and the run's reference released.
    unfoldable pub finish_run : (fallback : Option ℕ) → M Task (Unit {0})
    unfolding header or_else delete_work_item tracker_complete
    finish_run fallback = do
      t ← header
      put (record t { work_item = none })
      delete_work_item (or_else t.work_item fallback)
      tracker_complete
      release

    -- `run`, on an item that the kernel took from its queue. `fallback` is null with WDM and the item
    -- with KMDF.
    unfoldable pub run :
        (during : M Task (Poll (Unit {0}))) → (fallback : Option ℕ) → M Task (Unit {0})
    unfolding header poll_task complete finish_run tracker_complete
    run during fallback = do
      t ← header
      put (record t { scheduled = 0 })
      if not (t.completed == 0)
          then tracker_complete >> release
          else (if not (t.cancel_requested == 0) then complete else poll_task during)
            >> finish_run fallback

    -- The kernel takes the first item from its queue and runs it; an item that was deleted is freed
    -- memory.
    unfoldable pub run_next :
        (during : M Task (Poll (Unit {0}))) → (kmdf : Bool) → M Task (Unit {0})
    unfolding run
    run_next during kmdf t = elim t.queue [
      | [] ↦ none
      | item ∷ rest ↦
          let ran = run during (if kmdf then some item else none) (record t { queue = rest }) in
          if is_deleted item t.deleted then none else ran
    ]
