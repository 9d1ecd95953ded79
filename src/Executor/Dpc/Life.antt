-- ===== src/Executor/Dpc/Life.antt =====
-- The life of a DPC task (src/executor.rs): it is spawned, and the kernel runs it.
use kcom_rs.Prelude.{
  ℕ, suc, ◌+◌, ◌≤◌, ◌<◌, ◌≡◌, ◌≢◌, refl, ap, Option, none, some, Bool, true, false, ◌>>◌, ◌>>=◌,
  List, Returns, arith, if◌then◌else◌,
}
use kcom_rs.RefCount.{RefCounter}
use kcom_rs.Status.{ok, err, status_insufficient_resources}
use kcom_rs.Executor.Budget.{Settings, Clock, polls, set_task_budget, budget_exhausted}
use kcom_rs.Executor.Budget.Laws.{spent_at, polls_lem}
use kcom_rs.Executor.Dpc.{Task, Kernel, allocate, handle_new}
use kcom_rs.Executor.Dpc.Ops.{add_ref_lem, schedule_lem, release_shared}
use kcom_rs.Executor.Dpc.Inv.{Inv}
use kcom_rs.Executor.Dpc.Owners.{Owners, total}
use kcom_rs.Executor.Dpc.Routine.{
  Round, Act, Exit, out_of_rounds, run_dpc, spawn_result, spawn, spawn_dpc_task_cancellable,
  spawn_dpc_task_tracked,
}
use kcom_rs.Executor.Dpc.Loop.{Obeys, stage_of}
use kcom_rs.Executor.Dpc.Safety.{after, run_dpc-Inv}
use kcom_rs.Executor.Dpc.Rounds.{Ends, run_dpc-Ends}

module _ (rc : RefCounter) (kernel : Kernel) (room : 4 ≤ rc.limit) where
  spawned_lem :
      (with_handle : Bool)
      → spawn rc kernel with_handle allocate
        ≡ some (
          tt,
          record allocate { ref_count = if with_handle then 2 else 1; scheduled = 1; queued = 1 },
        )
  unfolding spawn allocate handle_new
  spawned_lem true =
      rw (◌>>◌, ◌>>=◌, add_ref_lem rc allocate refl (omega (arith, room)))
        (ground (
          arith,
          schedule_lem rc kernel (record allocate { ref_count = 2 }) 1 refl refl
              (omega (arith, room)),
          release_shared rc (record allocate { ref_count = 3; scheduled = 1; queued = 1 }) refl 1
              refl (omega (arith, room)),
        ))
  spawned_lem false = ground (
    arith,
    schedule_lem rc kernel allocate 0 refl refl (omega (arith, room)),
    release_shared rc (record allocate { ref_count = 2; scheduled = 1; queued = 1 }) refl 0 refl
        (omega (arith, room)),
  )

  -- Spawning a DPC task, with a handle or without, returns. If there is no memory it fails with
  -- `STATUS_INSUFFICIENT_RESOURCES`; else it succeeds and leaves the task with one entry in the
  -- kernel's queue and one reference for it, and one reference more for the handle, if there is one.
  -- Nothing is freed or dropped.
  pub spawn_lem :
      (memory : Bool)
      → (spawn_dpc_task_cancellable rc kernel memory
          ≡ some (
              if memory
              then (ok tt, some (record allocate { ref_count = 2; scheduled = 1; queued = 1 }))
              else (err status_insufficient_resources, none)))
        × (spawn_dpc_task_tracked rc kernel memory
            ≡ some (
                if memory
                then (ok tt, some (record allocate { scheduled = 1; queued = 1 }))
                else (err status_insufficient_resources, none)))
  unfolding spawn_dpc_task_cancellable spawn_dpc_task_tracked allocate
  spawn_lem false = (refl, refl)
  spawn_lem true = (ap spawn_result (spawned_lem true), ap spawn_result (spawned_lem false))

Returns-Ends :
    (P : Exit → Task → Type 0) (r : Option (Exit × Task))
    → Returns P r
    → Ends r
    → Returns (λ e t. (e ≢ out_of_rounds) × P e t) r
Returns-Ends P none h k = h
Returns-Ends P (some (e, t)) h k = (k, h)

module _ (rc : RefCounter) (kernel : Kernel) (cpu : Option ℕ) (cap : ℕ) (room : cap + 2 ≤ rc.limit)
    (settings : Settings) (n : ℕ) (clock : Clock) (future : ℕ → Round) (drop_acts : List Act)
    (o : Owners) (fits : total o + 2 ≤ cap) (idle : o.running ≡ 0)
    (obeys : Obeys cap future drop_acts (record o { running = 2 })) where
  -- A run of `dpc_routine` in the budget mode `Polls(n)`, on a task in the kernel's queue that satisfies
  -- the invariant, whose future and other owners keep to ownership and hold fewer references than the
  -- counter's limit: the run returns, without touching freed memory, its loop ends within `n + 1`
  -- polls, and the invariant holds again for the owners that are left.
  pub run_dpc-Safe :
      (c : ℕ) (t : Task)
      → 0 < t.queued
      → Inv c (total o) t
      → Returns
          (λ e s.
            (e ≢ out_of_rounds)
            × ((i : ℕ) × Inv
                  (stage_of e)
                  (after rc kernel cpu cap room
                    (set_task_budget (polls n) settings)
                    clock
                    future
                    drop_acts
                    o
                    fits
                    idle
                    obeys
                    e
                    i)
                  s))
          (run_dpc rc kernel cpu
            (set_task_budget (polls n) settings)
            clock
            future
            drop_acts
            (suc n)
            t)
  run_dpc-Safe c t q v =
      Returns-Ends _ _
        (run_dpc-Inv rc kernel cpu cap room (set_task_budget (polls n) settings) clock future
          drop_acts o fits idle obeys (suc n) c t q v)
        (run_dpc-Ends rc kernel cpu (set_task_budget (polls n) settings) clock future drop_acts
          (suc n) n t (omega arith) last)
    where
      last :
          budget_exhausted
            (set_task_budget (polls n) settings)
            clock
            n
            (spent_at (set_task_budget (polls n) settings) n)
          ≡ true
      last = rw (polls_lem settings clock n n) (ground arith)
