-- ===== src/Tests/Dpc.antt =====
-- Examples for the DPC tasks of src/executor.rs: a task that was spawned with a handle, whose future
-- clones its waker and wakes itself in the first poll, and is ready in the second.
use kcom_rs.Prelude.{
  inr, ℕ, zero, suc, ◌≡◌, ◌≢◌, refl, true, false, ◌==◌, none, some, [], ◌∷◌, ready, pending, arith,
  Returns,
}
use kcom_rs.Status.{ok}
use kcom_rs.RefCount.{hardened}
use kcom_rs.RefCount.Laws.{counter}
use kcom_rs.Executor.Budget.{polls, default_settings, set_task_budget, Clock}
use kcom_rs.Executor.Dpc.{Task, Kernel, allocate}
use kcom_rs.Executor.Dpc.Inv.{Inv, Keeps}
use kcom_rs.Executor.Dpc.Owners.{Owners, perform-Inv, own_all}
use kcom_rs.Executor.Dpc.Routine.{
  completed, Act, clone_waker, wake, Round, out_of_rounds, perform, run_dpc,
  spawn_dpc_task_cancellable, spawn_dpc_task_tracked,
}
use kcom_rs.Executor.Dpc.Loop.{Obeys, stage_of}
use kcom_rs.Executor.Dpc.Safety.{after}
use kcom_rs.Executor.Dpc.Rounds.{Ends, run_dpc-Ends}
use kcom_rs.Executor.Dpc.Life.{spawn_lem, run_dpc-Safe}
use kcom_rs.Executor.Dpc.Overlap.{overlap, queued_once, overlap_lem}
use kcom_rs.Executor.Budget.Laws.{polls_lem}

again : (n : ℕ) → (suc n == 0) ≡ false
again n = ground arith

abbrev kernel : Kernel
kernel = record {
  insert_queue_dpc = λ queued. queued == 0;
  insert_new = refl;
  insert_again = again;
}

abbrev clock : Clock
clock = record { frequency = 1; start = 0; now = λ i. i }

abbrev spawned : Task
spawned = record {
  ref_count = 2;
  scheduled = 1;
  completed = 0;
  cancel_requested = 0;
  slots = λ cpu. false;
  queued = 1;
  future_drops = 0;
  frees = 0;
  tracker_begins = 1;
  tracker_completes = 0;
}

spawn_lem_example :
    (spawn_dpc_task_cancellable (counter hardened) kernel true ≡ some (ok tt, some spawned))
    × (spawn_dpc_task_tracked (counter hardened) kernel true
        ≡ some (ok tt, some (record spawned { ref_count = 1 })))
unfolding allocate
spawn_lem_example = spawn_lem (counter hardened) kernel (omega arith) true

abbrev handle : Owners
handle = record { wakers = 0; handles = 1; running = 0 }

abbrev running : Owners
running = record { wakers = 0; handles = 1; running = 2 }

abbrev future : ℕ → Round
future zero = record { acts = clone_waker ∷ wake ∷ []; result = pending }
future (suc i) = record { acts = []; result = ready tt }

obeys : Obeys 10 future [] (record handle { running = 2 })
obeys = record {
  held = λ i. running;
  gone = λ i. running;
  begins = refl;
  polled = kept;
  destroyed = λ i. refl;
}
  where
    kept : (i : ℕ) → own_all 10 (future i).acts running ≡ some running
    kept zero = refl
    kept (suc i) = refl

spawned-Inv : Inv 0 1 spawned
spawned-Inv = record {
  counted = refl;
  single = omega arith;
  flag = omega arith;
  dropped = refl;
  freed = refl;
  over = omega arith;
  tracked = refl;
  woken = inr (omega arith);
  stage = inr refl;
}

run_dpc-Safe_example :
    Returns
      (λ e s.
        (e ≢ out_of_rounds)
        × ((i : ℕ) × Inv
              (stage_of e)
              (after
                (counter hardened)
                kernel
                (some 3)
                10
                (omega arith)
                (set_task_budget (polls 4) default_settings)
                clock
                future
                []
                handle
                (omega arith)
                refl
                obeys
                e
                i)
              s))
      (run_dpc
        (counter hardened)
        kernel
        (some 3)
        (set_task_budget (polls 4) default_settings)
        clock
        future
        []
        5
        spawned)
run_dpc-Safe_example =
    run_dpc-Safe (counter hardened) kernel (some 3) 10 (omega arith) default_settings 4 clock future
      [] handle (omega arith) refl obeys 0 spawned (omega arith) spawned-Inv

run_dpc-Ends_example : Ends (
    run_dpc
      (counter hardened)
      kernel
      none
      (set_task_budget (polls 1) default_settings)
      clock
      future
      []
      2
      spawned)
run_dpc-Ends_example =
    run_dpc-Ends (counter hardened) kernel none (set_task_budget (polls 1) default_settings) clock
      future [] 2 1 spawned (omega arith) (polls_lem default_settings clock 1 1)

perform-Inv_example : Keeps 0 1 (perform (counter hardened) kernel none Act.cancel spawned)
perform-Inv_example =
    perform-Inv (counter hardened) kernel none 0 10 (omega arith) Act.cancel handle handle spawned
      (omega arith) refl spawned-Inv

overlap_lem_example :
    (u : Task) × (overlap
        (counter hardened)
        kernel
        default_settings
        clock
        0
        1
        (queued_once (counter hardened) kernel default_settings clock 1 (omega arith) spawned)
      ≡ some (completed, u))
    × (u.future_drops ≡ 2)
    × (u.frees ≡ 0)
overlap_lem_example =
    overlap_lem (counter hardened) kernel default_settings clock 1 (omega arith) spawned 0 1
