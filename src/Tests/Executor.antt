-- ===== src/Tests/Executor.antt =====
-- Examples for the trackers, the budget and the processor index of src/executor.rs.
use kcom_rs.Prelude.{◌+◌, ◌≡◌, ◌≢◌, refl, true, none, some, arith}
use kcom_rs.Tracker.{flag_events, new, drain}
use kcom_rs.Tracker.Races.{System, start, Reach, here, IsQuiet, drain_sound, drain_early}
use kcom_rs.Executor.Budget.{polls, default_settings, set_task_budget, Clock, budget_exhausted}
use kcom_rs.Executor.Budget.Laws.{spent_at, polls_lem}
use kcom_rs.Executor.Cpu.{current_cpu_index}

drain_sound_example :
    drain flag_events (start flag_events).tracker ≡ some (start flag_events).tracker
unfolding start new
drain_sound_example = drain_sound flag_events here (refl, refl)

drain_early_example :
    (s : System flag_events) × Reach flag_events true s
    × IsQuiet flag_events s
    × (s.tracker.pending ≡ 3)
    × (drain flag_events s.tracker ≢ none)
drain_early_example = drain_early flag_events 2 (omega arith)

abbrev clock : Clock
clock = record { frequency = 10_000_000; start = 1000; now = λ i. 1000 + i }

polls_lem_example :
    budget_exhausted
      (set_task_budget (polls 3) default_settings)
      clock
      3
      (spent_at (set_task_budget (polls 3) default_settings) 3)
    ≡ true
polls_lem_example = polls_lem default_settings clock 3 3

two_five : current_cpu_index 2 5 ≡ some 133
unfolding current_cpu_index
two_five = refl
