-- ===== src/Executor/Dpc/Rounds.antt =====
-- How many rounds the loop of `dpc_routine` (src/executor.rs) goes through.
use kcom_rs.Prelude.{
  ◌⊎◌, ℕ, zero, suc, ◌+◌, ◌-◌, ◌≤◌, ◌<◌, ◌≡◌, ◌≢◌, Option, none, some, true, false, ◌==◌, M, List,
  arith, Poll, ready, pending, pure, Bool-cases, inl, inr,
}
use kcom_rs.RefCount.{RefCounter}
use kcom_rs.Executor.Budget.{Settings, Clock, Spent, fresh, budget_exhausted}
use kcom_rs.Executor.Budget.Laws.{spent_at}
use kcom_rs.Executor.Dpc.{
  Task, Kernel, header, queue_dpc, add_ref, release, drop_raw, destroy_shim, drop,
}
use kcom_rs.Executor.Dpc.Routine.{
  Act, Round, Exit, out_of_rounds, perform_all, set_slot, on_ready, on_pending, on_poll, poll_loop,
  run_task, dpc_routine, run_dpc,
}

-- If the code returns, it did not run out of rounds.
abbrev pub Ends : Option (Exit × Task) → Type 0
Ends none = Unit
Ends (some (e, t)) = e ≢ out_of_rounds

Ends-bind :
    {A : Type 0} (r : Option (A × Task)) (f : A → M Task Exit)
    → ((a : A) (s : Task) → Ends (f a s))
    → Ends (elim r [ none ↦ none | some (a, s) ↦ f a s ])
Ends-bind none f k = tt
Ends-bind (some (a, s)) f k = k a s

Ends-after :
    (r : Option (Exit × Task)) (f : Exit → M Task Exit)
    → Ends r
    → ((e : Exit) (s : Task) → e ≢ out_of_rounds → Ends (f e s))
    → Ends (elim r [ none ↦ none | some (e, s) ↦ f e s ])
Ends-after none f h k = tt
Ends-after (some (e, s)) f h k = k e s h

pure-Ends : (e : Exit) (s : Task) → e ≢ out_of_rounds → Ends (pure e s)
pure-Ends e s h = h

module _ (rc : RefCounter) (kernel : Kernel) (cpu : Option ℕ) (settings : Settings) (clock : Clock)
    (future : ℕ → Round) (drop_acts : List Act) where
  on_ready-Ends : (s : Task) → Ends (on_ready rc kernel cpu settings clock future drop_acts s)
  unfolding on_ready
  on_ready-Ends s = Ends-bind (header s) _ (λ t u.
      Ends-bind (destroy_shim drop (record t { completed = 1 })) _
        (λ _ v. Ends-bind (perform_all rc kernel cpu drop_acts v) _ (λ _ w. ground arith)))

  on_pending-Ends :
      (i : ℕ) (spent : Spent) (next : M Task Exit) (s : Task)
      → (budget_exhausted settings clock i spent ≡ true) ⊎ ((u : Task) → Ends (next u))
      → Ends (on_pending rc kernel cpu settings clock future drop_acts i spent next s)
  unfolding on_pending
  on_pending-Ends i spent next s h = Ends-bind (header s) _ (λ t u.
      elim (Bool-cases (t.scheduled == 0)) [
        | inl idle ↦ rw idle (λ e. ground arith)
        | inr busy ↦ rw busy (elim (Bool-cases (budget_exhausted settings clock i spent)) [
          | inl over ↦ rw over (Ends-bind (queue_dpc rc kernel u) _ (λ _ w e. ground arith))
          | inr under ↦
              rw under (elim h [ inl over ↦ absurd (ground (arith, over, under)) | inr k ↦ k _ ])
        ])
      ])

  on_poll-Ends :
      (i : ℕ) (spent : Spent) (next : M Task Exit) (r : Poll (Unit {0})) (s : Task)
      → (budget_exhausted settings clock i spent ≡ true) ⊎ ((u : Task) → Ends (next u))
      → Ends (on_poll rc kernel cpu settings clock future drop_acts r i spent next s)
  unfolding on_poll
  on_poll-Ends i spent next (ready u) s h = on_ready-Ends s
  on_poll-Ends i spent next pending s h = on_pending-Ends i spent next s h

  poll_loop-Ends :
      (rounds i n : ℕ) (s : Task)
      → i ≤ n
      → n < i + rounds
      → budget_exhausted settings clock n (spent_at settings n) ≡ true
      → Ends
          (poll_loop rc kernel cpu settings clock future drop_acts rounds i (spent_at settings i) s)
  unfolding poll_loop
  poll_loop-Ends zero i n s low h e = absurd (omega arith)
  poll_loop-Ends (suc rounds) i n s low h e =
      Ends-bind (perform_all rc kernel cpu (future i).acts s) _ (λ _ u.
        on_poll-Ends i (spent_at settings i) _ (future i).result u (elim (Bool-cases (i == n)) [
          | inl last ↦ inl (let same : i ≡ n = ground (arith, last) in rw same e)
          | inr more ↦
              inr (λ v. poll_loop-Ends rounds (suc i) n v (ground (arith, more)) (omega arith) e)
        ]))

  run_task-Ends :
      (rounds n : ℕ) (s : Task)
      → n < rounds
      → budget_exhausted settings clock n (spent_at settings n) ≡ true
      → Ends (run_task rc kernel cpu settings clock future drop_acts rounds s)
  unfolding run_task
  run_task-Ends rounds n s h e = Ends-bind (add_ref rc s) _ (λ _ u.
      Ends-after
        (poll_loop rc kernel cpu settings clock future drop_acts rounds 0 (fresh settings)
          (set_slot cpu true u))
        _ (poll_loop-Ends rounds 0 n _ (omega arith) (omega arith) e)
        (λ x v ends.
          Ends-bind (release rc (set_slot cpu false v)) _
            (λ _ w. Ends-bind (drop_raw rc kernel true w) _ (λ _ z. ends))))

  -- If the budget is exhausted at poll number `n`, counted from 0, a run of `dpc_routine` that is given
  -- more than `n` rounds does not run out of them, whatever the future does and whatever state it
  -- starts in.
  pub run_dpc-Ends :
      (rounds n : ℕ) (s : Task)
      → n < rounds
      → budget_exhausted settings clock n (spent_at settings n) ≡ true
      → Ends (run_dpc rc kernel cpu settings clock future drop_acts rounds s)
  unfolding run_dpc dpc_routine
  run_dpc-Ends rounds n s h e = Ends-bind (header (record s { queued = s.queued - 1 })) _ (λ t u.
      elim (Bool-cases (t.completed == 0)) [
        | inl running ↦ rw running (run_task-Ends rounds n _ h e)
        | inr done ↦
            rw done (Ends-bind (release rc (record t { scheduled = 0 })) _ (λ _ w e. ground arith))
      ])
