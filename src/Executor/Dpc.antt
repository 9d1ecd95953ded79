-- ===== src/Executor/Dpc.antt =====
-- src/executor.rs: the tasks of the DPC executor (`TaskHeader`, `Task`).
--
-- The state is one task, with what the kernel and the rest of the driver can see of it. Every access
-- through the task's pointer first checks that the task was not freed.
pub mod Ops
pub mod Routine
pub mod Inv
pub mod Owners
pub mod Loop
pub mod Safety
pub mod Rounds
pub mod Life
pub mod Overlap
use kcom_rs.Prelude.{
  ℕ, zero, suc, ◌+◌, ◌-◌, ◌≡◌, Bool, true, false, Option, none, some, ◌==◌, if◌then◌else◌, M, ◌>>=◌,
  not, ltb, ◌>>◌, pure, lift, get, put, when,
}
use kcom_rs.RefCount.{RefCounter}

pub record Task : Type 0 where
  pub ref_count : ℕ  -- AtomicU32
  pub scheduled : ℕ  -- AtomicU32
  pub completed : ℕ  -- AtomicU32
  pub cancel_requested : ℕ  -- AtomicU32: 0 none, 1 requested, 2 acknowledged
  pub slots : ℕ → Bool  -- the entries of CURRENT_TASKS that hold this task
  pub queued : ℕ  -- runs of `dpc_routine` that the kernel still owes
  pub future_drops : ℕ  -- how often the future was dropped
  pub frees : ℕ  -- how often the allocation was freed
  pub tracker_begins : ℕ  -- calls of `task_tracker_begin`
  pub tracker_completes : ℕ  -- calls of `task_tracker_complete`

-- What the kernel answers. `KeInsertQueueDpc` inserts a DPC object that is not in the queue, and
-- answers 0 for one that is.
pub record Kernel : Type 0 where
  pub insert_queue_dpc : (queued : ℕ) → Bool
  pub insert_new : insert_queue_dpc 0 ≡ true
  pub insert_again : (n : ℕ) → insert_queue_dpc (suc n) ≡ false

abbrev pub dispatch_level : ℕ
dispatch_level = 2

pub data DestroyMode : Type 0 where
  drop dealloc : DestroyMode

-- `&*ptr.as_ptr()`
unfoldable pub header : M Task Task
header t = elim t.frees [ zero ↦ some (t, t) | suc n ↦ none ]

-- `destroy_shim`
unfoldable pub destroy_shim : DestroyMode → M Task (Unit {0})
unfolding header
destroy_shim drop = do t ← header; put (record t { future_drops = t.future_drops + 1 })
destroy_shim dealloc = do t ← header; put (record t { frees = t.frees + 1 })

-- `task_tracker_complete(tracker)`, with the tracker's pointer read before the task was freed.
unfoldable pub tracker_complete : M Task (Unit {0})
tracker_complete t = some (tt, record t { tracker_completes = t.tracker_completes + 1 })

-- `allocate`, when the allocator returned memory.
unfoldable pub allocate : Task
allocate = record {
  ref_count = 1;
  scheduled = 0;
  completed = 0;
  cancel_requested = 0;
  slots = λ cpu. false;
  queued = 0;
  future_drops = 0;
  frees = 0;
  tracker_begins = 1;
  tracker_completes = 0;
}

-- The part of `release` that runs when the count has reached zero.
unfoldable pub finish : M Task (Unit {0})
unfolding header destroy_shim tracker_complete
finish = do
  t ← header
  when (t.completed == 0) (put (record t { completed = 1 }) >> destroy_shim drop)
  destroy_shim dealloc
  tracker_complete

module _ (rc : RefCounter) where
  unfoldable pub add_ref : M Task (Unit {0})
  unfolding header
  add_ref = do
    t ← header
    (left, count) ← lift (rc.add t.ref_count)
    put (record t { ref_count = left })

  unfoldable pub release : M Task (Unit {0})
  unfolding header
  release = do
    t ← header
    (left, count) ← lift (rc.sub t.ref_count)
    put (record t { ref_count = left })
    when (count == 0) finish

  module _ (kernel : Kernel) where
    -- The tail that `schedule` and `queue_dpc` share: `add_ref`, `KeInsertQueueDpc`, and the release if it answers 0.
    insert_dpc : M Task (Unit {0})
    unfolding header
    insert_dpc = do
      t ← header
      if kernel.insert_queue_dpc t.queued then put (record t { queued = t.queued + 1 }) else release

    unfoldable pub queue_dpc : M Task (Unit {0})
    unfolding insert_dpc
    queue_dpc = add_ref >> insert_dpc

    unfoldable pub schedule : M Task (Unit {0})
    unfolding header
    schedule = do
      t ← header
      when (t.completed == 0)
          (when (t.scheduled == 0) (do put (record t { scheduled = 1 }); queue_dpc))

    unfoldable pub cancel : M Task (Unit {0})
    unfolding header
    cancel = do
      t ← header
      when (t.cancel_requested == 0) (put (record t { cancel_requested = 1 }) >> schedule)

    -- The functions of `RAW_WAKER_VTABLE`. A waker's pointer is null or points at the task.
    unfoldable pub clone_raw : (non_null : Bool) → M Task (Unit {0})
    clone_raw non_null = when non_null add_ref

    unfoldable pub wake_raw : (non_null : Bool) → M Task (Unit {0})
    wake_raw non_null = when non_null (schedule >> release)

    unfoldable pub wake_by_ref_raw : (non_null : Bool) → M Task (Unit {0})
    wake_by_ref_raw non_null = when non_null schedule

    unfoldable pub drop_raw : (non_null : Bool) → M Task (Unit {0})
    drop_raw non_null = when non_null release

    -- `CancelHandle`: making one, `cancel`, `is_cancelled`, and its `Drop`, which swaps the pointer for null.
    unfoldable pub handle_new : M Task (Unit {0})
    handle_new = add_ref

    unfoldable pub handle_cancel : (non_null : Bool) → M Task (Unit {0})
    handle_cancel non_null = when non_null cancel

    unfoldable pub handle_is_cancelled : (non_null : Bool) → M Task Bool
    unfolding header
    handle_is_cancelled false = pure false
    handle_is_cancelled true = do t ← header; pure (not (t.cancel_requested == 0))

    unfoldable pub handle_drop : (non_null : Bool) → M Task (Unit {0})
    handle_drop non_null = when non_null release

-- The entry of CURRENT_TASKS that `is_cancellation_requested` and `take_cancellation_request` look at:
-- none below `DISPATCH_LEVEL`, none without a processor index, and none if the entry is null. The
-- entry of this processor, if it is set, is this task.
abbrev current : (irql : ℕ) → (cpu : Option ℕ) → Task → Bool
current irql none t = false
current irql (some cpu) t = if ltb irql dispatch_level then false else t.slots cpu

unfoldable pub is_cancellation_requested : (irql : ℕ) → (cpu : Option ℕ) → M Task Bool
unfolding header
is_cancellation_requested irql cpu = do
  s ← get
  if current irql cpu s then (do t ← header; pure (not (t.cancel_requested == 0))) else pure false

unfoldable pub take_cancellation_request : (irql : ℕ) → (cpu : Option ℕ) → M Task Bool
unfolding header
take_cancellation_request irql cpu = do
  s ← get
  if current irql cpu s
      then (do
        t ← header
        if t.cancel_requested == 1
            then put (record t { cancel_requested = 2 }) >>= (λ _. pure true)
            else pure false)
      else pure false
