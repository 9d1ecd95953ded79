-- ===== src/Executor/Budget.antt =====
-- src/executor.rs: how long one run of `dpc_routine` may go on polling.
pub mod Laws
use kcom_rs.Prelude.{
  ℕ, ◌+◌, ◌-◌, ◌*◌, ◌/◌, ◌%◌, ◌^◌, Bool, true, false, ◌||◌, ◌==◌, leb, ltb, if◌then◌else◌, u32_size,
  u64_size,
}

-- `TASK_BUDGET_MODE_POLLS` and `TASK_BUDGET_MODE_TIME_US`
pub data BudgetMode : Type 0 where
  by_polls by_time : BudgetMode

pub data TaskBudget : Type 0 where
  polls : ℕ → TaskBudget
  time_us : ℕ → TaskBudget

-- The three statics.
pub record Settings : Type 0 where
  pub mode : BudgetMode
  pub budget_polls : ℕ  -- u32
  pub budget_time_us : ℕ  -- u64

abbrev pub default_settings : Settings
default_settings = record { mode = by_polls; budget_polls = 64; budget_time_us = 200 }

unfoldable pub set_task_budget : TaskBudget → Settings → Settings
set_task_budget (polls n) s = record s { budget_polls = n; mode = by_polls }
set_task_budget (time_us us) s = record s { budget_time_us = us; mode = by_time }

-- `u64::saturating_mul`
abbrev pub saturating_mul : ℕ → ℕ → ℕ
saturating_mul a b = if ltb (a * b) u64_size then a * b else u64_size - 1

-- `KeQueryPerformanceCounter`: the frequency that it reports, an `i64` as its 64-bit pattern, the
-- reading at the start of the run, and the reading after each poll.
pub record Clock : Type 0 where
  pub frequency : ℕ
  pub start : ℕ
  pub now : ℕ → ℕ

-- A frequency that is not positive counts as 1.
unfoldable pub time_budget_ticks : Settings → Clock → ℕ
time_budget_ticks s c =
    let freq = if c.frequency == 0 || leb (2 ^ 63) c.frequency then 1 else c.frequency in
    saturating_mul s.budget_time_us freq / 1_000_000

-- The local variables `poll_budget` and `time_check_counter`.
pub record Spent : Type 0 where
  pub poll_budget : ℕ
  pub time_check_counter : ℕ

abbrev pub fresh : Settings → Spent
fresh s = record { poll_budget = s.budget_polls; time_check_counter = 0 }

-- `elapsed >= time_budget_ticks`, with `wrapping_sub`
abbrev pub is_over : Settings → Clock → ℕ → Bool
is_over s c i = leb (time_budget_ticks s c) ((c.now i + u64_size - c.start) % u64_size)

exhausted_in : BudgetMode → Settings → Clock → ℕ → Spent → Bool
exhausted_in by_polls s c i b = b.poll_budget == 0
exhausted_in by_time s c i b =
    if (b.time_check_counter + 1) % u32_size % 8 == 0 then is_over s c i else false

-- `budget_exhausted` after poll number `i` of the run, which woke the task again.
unfoldable pub budget_exhausted : Settings → Clock → ℕ → Spent → Bool
unfolding exhausted_in
budget_exhausted s c i b = exhausted_in s.mode s c i b

spend_in : BudgetMode → Spent → Spent
spend_in by_polls b = record b { poll_budget = b.poll_budget - 1 }
spend_in by_time b = record b { time_check_counter = (b.time_check_counter + 1) % u32_size }

-- The two variables after that poll.
unfoldable pub spend : Settings → Spent → Spent
unfolding spend_in
spend s b = spend_in s.mode b
