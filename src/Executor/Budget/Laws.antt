-- ===== src/Executor/Budget/Laws.antt =====
-- When the budget of a run of `dpc_routine` (src/executor.rs) is exhausted.
use kcom_rs.Prelude.{ℕ, zero, suc, ◌+◌, ◌-◌, ◌%◌, ◌≡◌, refl, ◌==◌, leb, arith, u32_size, ◌&&◌}
use kcom_rs.Executor.Budget.{
  by_polls, by_time, Settings, Clock, Spent, polls, time_us, fresh, spend, budget_exhausted,
  is_over, set_task_budget,
}

-- The variables after `i` polls that did not end the run.
abbrev pub spent_at : Settings → ℕ → Spent
spent_at s zero = fresh s
spent_at s (suc i) = spend s (spent_at s i)

poll_budget_lem :
    (s : Settings) (i : ℕ) → s.mode ≡ by_polls → (spent_at s i).poll_budget ≡ s.budget_polls - i
unfolding spend
poll_budget_lem s zero e = ground arith
poll_budget_lem s (suc i) e = let ih = poll_budget_lem s i e in rw e (omega (arith, ih))

-- In the mode `Polls(n)`, polls 0 to `n - 1` leave the budget unspent and poll number `n` exhausts it.
pub polls_lem :
    (s : Settings) (clock : Clock) (n i : ℕ)
    → budget_exhausted
        (set_task_budget (polls n) s)
        clock
        i
        (spent_at (set_task_budget (polls n) s) i)
      ≡ leb n i
unfolding budget_exhausted set_task_budget
polls_lem s clock n i =
    let e = poll_budget_lem (record s { budget_polls = n; mode = by_polls }) i refl in
    ground (arith, e)

counter_lem :
    (s : Settings) (i : ℕ) → s.mode ≡ by_time → (spent_at s i).time_check_counter ≡ i % u32_size
unfolding spend
counter_lem s zero e = ground arith
counter_lem s (suc i) e = let ih = counter_lem s i e in rw (e, ih) (omega arith)

eighth : (i : ℕ) → (i % u32_size + 1) % u32_size % 8 ≡ (i + 1) % 8
eighth i = omega arith

-- In the mode `TimeUs(us)`, a poll exhausts the budget just if it is every eighth and the time that
-- has passed since the start of the run has reached the ticks of `us` microseconds.
pub time_lem :
    (s : Settings) (clock : Clock) (us i : ℕ)
    → budget_exhausted
        (set_task_budget (time_us us) s)
        clock
        i
        (spent_at (set_task_budget (time_us us) s) i)
      ≡ ((i + 1) % 8 == 0) && is_over (set_task_budget (time_us us) s) clock i
unfolding budget_exhausted set_task_budget
time_lem s clock us i =
    let e = counter_lem (record s { budget_time_us = us; mode = by_time }) i refl in
    ground (arith, e, eighth i)
