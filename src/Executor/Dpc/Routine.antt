-- ===== src/Executor/Dpc/Routine.antt =====
-- src/executor.rs: `dpc_routine`, and the spawning of DPC tasks.
use kcom_rs.Prelude.{
  ℕ, zero, suc, ◌-◌, Bool, true, false, Option, none, some, List, [], ◌∷◌, ◌==◌, if◌then◌else◌, M,
  ◌>>=◌, ◌>>◌, pure, get, put, when, Poll, ready, pending,
}
use kcom_rs.RefCount.{RefCounter}
use kcom_rs.Status.{Result, ok, err, status_insufficient_resources}
use kcom_rs.Executor.Budget.{Settings, Clock, Spent, fresh, budget_exhausted, spend}
use kcom_rs.Executor.Dpc.{
  Task, Kernel, drop, header, destroy_shim, allocate, add_ref, release, queue_dpc, schedule,
  clone_raw, wake_raw, wake_by_ref_raw, drop_raw, handle_new, handle_cancel, handle_drop,
  take_cancellation_request, dispatch_level,
}

-- What the rest of the driver does with the task: the future while it is polled or dropped, and other
-- processors at that time, through the wakers and handles that they own.
pub data Act : Type 0 where
  clone_waker wake wake_by_ref drop_waker cancel drop_handle take_cancellation : Act

-- What one poll of the future does, and what it returns; the status is not used.
pub record Round : Type 0 where
  pub acts : List Act
  pub result : Poll (Unit {0})

-- How a run ends: the task had completed before, the future was ready, the run stopped before it was,
-- or, in the model only, the number of rounds given was too small.
pub data Exit : Type 0 where
  skipped completed parked out_of_rounds : Exit

abbrev pub set_slot : Option ℕ → Bool → Task → Task
set_slot none v t = t
set_slot (some cpu) v t = record t { slots = λ c. if c == cpu then v else t.slots c }

module _ (rc : RefCounter) (kernel : Kernel) (cpu : Option ℕ) where
  -- An act through a pointer that is not null.
  unfoldable pub perform : Act → M Task (Unit {0})
  perform clone_waker = clone_raw rc kernel true
  perform wake = wake_raw rc kernel true
  perform wake_by_ref = wake_by_ref_raw rc kernel true
  perform drop_waker = drop_raw rc kernel true
  perform cancel = handle_cancel rc kernel true
  perform drop_handle = handle_drop rc kernel true
  perform take_cancellation = take_cancellation_request dispatch_level cpu >>= (λ _. pure tt)

  unfoldable pub perform_all : List Act → M Task (Unit {0})
  perform_all [] = pure tt
  perform_all (a ∷ acts) = perform a >> perform_all acts

  module _ (settings : Settings) (clock : Clock) (future : ℕ → Round) (drop_acts : List Act) where
    -- `Poll::Ready`: the future is dropped, and its destructor may act too.
    unfoldable pub on_ready : M Task Exit
    unfolding header destroy_shim
    on_ready = do
      t ← header
      put (record t { completed = 1 })
      destroy_shim drop
      perform_all drop_acts
      pure completed

    -- `Poll::Pending` after poll number `i`; `next` is the next round.
    unfoldable pub on_pending : ℕ → Spent → M Task Exit → M Task Exit
    unfolding header
    on_pending i spent next = do
      t ← header
      if t.scheduled == 0
          then pure parked
          else if budget_exhausted settings clock i spent
          then queue_dpc rc kernel >> pure parked
          else put (record t { scheduled = 0 }) >> next

    unfoldable pub on_poll : Poll (Unit {0}) → ℕ → Spent → M Task Exit → M Task Exit
    unfolding on_ready on_pending
    on_poll (ready _) i spent next = on_ready
    on_poll pending i spent next = on_pending i spent next

    unfoldable pub poll_loop : (rounds i : ℕ) → Spent → M Task Exit
    unfolding on_poll
    poll_loop zero i spent = pure out_of_rounds
    poll_loop (suc rounds) i spent =
        let next = poll_loop rounds (suc i) (spend settings spent) in
        perform_all (future i).acts >> on_poll (future i).result i spent next

    -- The run of a task that has not completed. The waker of the context is made by `raw_waker`, and
    -- dropped when the function returns.
    unfoldable pub run_task : (rounds : ℕ) → M Task Exit
    unfolding poll_loop
    run_task rounds = do
      add_ref rc
      s ← get
      put (set_slot cpu true s)
      exit ← poll_loop rounds 0 (fresh settings)
      u ← get
      put (set_slot cpu false u)
      release rc
      drop_raw rc kernel true
      pure exit

    -- `dpc_routine`, which the kernel calls after it took the DPC from its queue.
    unfoldable pub dpc_routine : (rounds : ℕ) → M Task Exit
    unfolding header run_task
    dpc_routine rounds = do
      t ← header
      put (record t { scheduled = 0 })
      if t.completed == 0 then run_task rounds else release rc >> pure skipped

    -- The kernel takes the DPC from its queue and runs it.
    unfoldable pub run_dpc : (rounds : ℕ) → M Task Exit
    unfolding dpc_routine
    run_dpc rounds = do s ← get; put (record s { queued = s.queued - 1 }); dpc_routine rounds

abbrev pub spawn_result : Option (Unit {0} × Task) → Option (Result (Unit {0}) × Option Task)
spawn_result none = none
spawn_result (some (u, t)) = some (ok tt, some t)

module _ (rc : RefCounter) (kernel : Kernel) where
  -- The body of the spawning functions once `allocate` gave a task.
  unfoldable pub spawn : (with_handle : Bool) → M Task (Unit {0})
  spawn with_handle = do when with_handle (handle_new rc kernel); schedule rc kernel; release rc

  -- What they return, and the task; `memory` is whether `allocate` is given memory.
  spawned : (memory with_handle : Bool) → Option (Result (Unit {0}) × Option Task)
  unfolding spawn allocate
  spawned false with_handle = some (err status_insufficient_resources, none)
  spawned true with_handle = spawn_result (spawn with_handle allocate)

  -- With a handle for the two cancellable ones.
  unfoldable pub spawn_dpc_task_cancellable :
      (memory : Bool) → Option (Result (Unit {0}) × Option Task)
  unfolding spawned
  spawn_dpc_task_cancellable memory = spawned memory true

  unfoldable pub spawn_dpc_task_tracked : (memory : Bool) → Option (Result (Unit {0}) × Option Task)
  unfolding spawned
  spawn_dpc_task_tracked memory = spawned memory false
