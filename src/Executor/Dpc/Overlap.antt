-- ===== src/Executor/Dpc/Overlap.antt =====
-- Two runs of `dpc_routine` (src/executor.rs) on different processors: it clears `scheduled` before it
-- polls, so a wake-up during the poll queues the DPC object again, and the kernel may run it at once on
-- the processor that woke it.
use kcom_rs.Prelude.{
  ℕ, suc, ◌+◌, ◌-◌, ◌<◌, ◌≡◌, refl, Bool, true, false, Option, some, List, [], ◌==◌, if◌then◌else◌,
  M, ◌>>=◌, ◌>>◌, pure, get, put, ready, arith,
}
use kcom_rs.RefCount.{RefCounter}
use kcom_rs.Executor.Budget.{Settings, Clock, fresh}
use kcom_rs.Executor.Dpc.{
  Task, Kernel, header, destroy_shim, add_ref, release, wake_by_ref_raw, drop_raw,
}
use kcom_rs.Executor.Dpc.Ops.{add_ref_lem, release_shared, schedule_lem}
use kcom_rs.Executor.Dpc.Routine.{
  Act, Round, Exit, completed, skipped, set_slot, on_ready, poll_loop, run_task, dpc_routine,
  run_dpc, perform_all, on_poll,
}

module _ (rc : RefCounter) (kernel : Kernel) where
  -- `dpc_routine` up to its first poll: whether it will poll.
  unfoldable pub enter : (cpu : Option ℕ) → M Task Bool
  unfolding header
  enter cpu = do
    s ← get
    put (record s { queued = s.queued - 1 })
    t ← header
    put (record t { scheduled = 0 })
    if t.completed == 0
        then (do add_ref rc; u ← get; put (set_slot cpu true u); pure true)
        else release rc >> pure false

  -- What follows in `dpc_routine`.
  rest :
      (cpu : Option ℕ)
      → Settings
      → Clock
      → (ℕ → Round)
      → List Act
      → (rounds : ℕ) → Bool
      → M Task Exit
  rest cpu settings clock future acts rounds false = pure skipped
  rest cpu settings clock future acts rounds true = do
    exit ← poll_loop rc kernel cpu settings clock future acts rounds 0 (fresh settings)
    u ← get
    put (set_slot cpu false u)
    release rc
    drop_raw rc kernel true
    pure exit

  enter-rest :
      (cpu : Option ℕ) (settings : Settings) (clock : Clock) (future : ℕ → Round) (acts : List Act)
      (rounds : ℕ) (t : Task)
      → run_dpc rc kernel cpu settings clock future acts rounds t
        ≡ (enter cpu >>= rest cpu settings clock future acts rounds) t
  unfolding run_dpc dpc_routine run_task enter rest header add_ref
  enter-rest cpu settings clock future acts rounds t = ground arith

  module _ (settings : Settings) (clock : Clock) where
    -- A future that is ready at its first poll.
    abbrev pub at_once : ℕ → Round
    at_once i = record { acts = []; result = ready tt }

    -- One processor is about to poll the future; a second one wakes the task, runs the DPC to its end;
    -- then the first one's poll returns `Poll::Ready`.
    unfoldable pub overlap : (c1 c2 : ℕ) → M Task Exit
    unfolding enter
    overlap c1 c2 = do
      polls ← enter (some c1)
      wake_by_ref_raw rc kernel true
      exit ← run_dpc rc kernel (some c2) settings clock at_once [] 1
      on_ready rc kernel (some c1) settings clock at_once []

    module _ (n : ℕ) (room : n + 6 < rc.limit) (t : Task) where
      -- A task in the kernel's queue, which is not complete.
      abbrev pub queued_once : Task
      queued_once = record t { ref_count = suc n; completed = 0; queued = 1; frees = 0 }

      abbrev polling : ℕ → Task
      polling c =
          set_slot (some c) true
            (record queued_once { ref_count = suc (suc n); scheduled = 0; queued = 0 })

      enter_lem : (c : ℕ) → enter (some c) queued_once ≡ some (true, polling c)
      unfolding enter header
      enter_lem c =
          rw
            (
              ◌>>◌,
              ◌>>=◌,
              add_ref_lem rc (record queued_once { scheduled = 0; queued = 0 }) refl
                  (omega (arith, room)),
            )
            refl

      abbrev woken : ℕ → Task
      woken c = record (polling c) { ref_count = suc (suc (suc n)); scheduled = 1; queued = 1 }

      wake_lem : (c : ℕ) → wake_by_ref_raw rc kernel true (polling c) ≡ some (tt, woken c)
      unfolding wake_by_ref_raw
      wake_lem c = schedule_lem rc kernel (polling c) (suc n) refl refl (omega (arith, room))

      abbrev entered : (c1 c2 : ℕ) → Task
      entered c1 c2 = record (woken c1) {
        ref_count = suc (suc (suc (suc n)));
        scheduled = 0;
        queued = 0;
        slots = λ c. if c == c2 then true else (polling c1).slots c;
      }

      abbrev left : (c1 c2 k : ℕ) → Task
      left c1 c2 k = record (entered c1 c2) {
        ref_count = k;
        completed = 1;
        future_drops = t.future_drops + 1;
        slots = λ c. if c == c2 then false else (entered c1 c2).slots c;
      }

      loop_lem :
          (c1 c2 : ℕ)
          → poll_loop rc kernel
              (some c2)
              settings
              clock
              at_once
              []
              1
              0
              (fresh settings)
              (entered c1 c2)
            ≡ some (
              completed,
              record (entered c1 c2) { completed = 1; future_drops = t.future_drops + 1 },
            )
      unfolding poll_loop on_poll on_ready header destroy_shim perform_all
      loop_lem c1 c2 = refl

      run_task_lem :
          (c1 c2 : ℕ)
          → run_task rc kernel
              (some c2)
              settings
              clock
              at_once
              []
              1
              (record (woken c1) { queued = 0; scheduled = 0 })
            ≡ some (completed, left c1 c2 (suc (suc n)))
      unfolding run_task drop_raw
      run_task_lem c1 c2 =
          rw
            (
              ◌>>◌,
              ◌>>=◌,
              add_ref_lem rc (record (woken c1) { queued = 0; scheduled = 0 }) refl
                  (omega (arith, room)),
              loop_lem c1 c2,
              release_shared rc (left c1 c2 (suc (suc (suc (suc n))))) refl (suc (suc n)) refl
                  (omega (arith, room)),
              release_shared rc (left c1 c2 (suc (suc (suc n)))) refl (suc n) refl
                  (omega (arith, room)),
            )
            refl

      second_lem :
          (c1 c2 : ℕ)
          → run_dpc rc kernel (some c2) settings clock at_once [] 1 (woken c1)
            ≡ some (completed, left c1 c2 (suc (suc n)))
      unfolding run_dpc dpc_routine header
      second_lem c1 c2 = run_task_lem c1 c2

      -- A task is in the kernel's queue, neither complete nor freed, and its count is at least 1 and
      -- at least six below the limit. A wake-up from another processor during its poll lets that
      -- processor poll the future too, while the first one's poll is under way: whatever the budget
      -- and the clock, if both polls are ready, the future is dropped by each run, twice in all.
      pub overlap_lem :
          (c1 c2 : ℕ)
          → (u : Task) × (overlap c1 c2 queued_once ≡ some (completed, u))
            × (u.future_drops ≡ t.future_drops + 2)
            × (u.frees ≡ 0)
      unfolding overlap on_ready header destroy_shim perform_all
      overlap_lem c1 c2 = (
        record (left c1 c2 (suc (suc n))) { future_drops = t.future_drops + 1 + 1 },
        rw (◌>>◌, ◌>>=◌, enter_lem c1, wake_lem c1, second_lem c1 c2) refl,
        omega arith,
        refl,
      )
