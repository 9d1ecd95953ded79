-- ===== src/Tracker/Sequential.antt =====
-- The trackers of src/executor.rs when their operations run one after another.
use kcom_rs.Prelude.{
  ℕ, zero, suc, ◌+◌, ◌<◌, ◌≡◌, ◌≢◌, refl, true, false, Option, none, some, List, [], ◌∷◌, arith,
  u32_size, length, if◌then◌else◌, ◌==◌, zero_or_suc, inl, inr,
}
use kcom_rs.Tracker.{EventApi, Tracker, new, begin, complete, drain}

pub data Call : Type 0 where
  begins completes : Call

-- The number of tasks outstanding after a history of calls; `none` if a task completes that did not
-- begin.
abbrev pub outstanding : ℕ → List Call → Option ℕ
outstanding n [] = some n
outstanding n (Call.begins ∷ cs) = outstanding (suc n) cs
outstanding zero (Call.completes ∷ cs) = none
outstanding (suc n) (Call.completes ∷ cs) = outstanding n cs

module _ (api : EventApi) where
  open api use {Event, signalled, signalled-initialize, signalled-set}

  -- `n` tasks are outstanding, and the event is signalled exactly if there are none.
  pub record Counts (n : ℕ) (t : Tracker Event) : Type 0 where
    pub counted : t.pending ≡ n
    pub fits : n < u32_size
    pub idle : n ≡ 0 → signalled t.event ≡ true
    pub busy : n ≢ 0 → signalled t.event ≡ false

  new-Counts : Counts 0 (new api)
  unfolding new
  new-Counts = record {
    counted = refl;
    fits = omega arith;
    idle = λ _. signalled-initialize true;
    busy = λ h. absurd (h refl);
  }

  begin-Counts :
      (n : ℕ) (t : Tracker Event) → suc n < u32_size → Counts n t → Counts (suc n) (begin api t)
  unfolding begin
  begin-Counts n t room c = ground (arith, signalled-initialize false)

  complete-Counts : (n : ℕ) (t : Tracker Event) → Counts (suc n) t → Counts n (complete api t)
  unfolding complete
  complete-Counts n t c = ground (arith, signalled-set t.event)

  pub run : List Call → Tracker Event → Tracker Event
  run [] t = t
  run (begins ∷ cs) t = run cs (begin api t)
  run (completes ∷ cs) t = run cs (complete api t)

  run-Counts :
      (cs : List Call) (n m : ℕ) (t : Tracker Event)
      → n + length cs < u32_size
      → outstanding n cs ≡ some m
      → Counts n t
      → Counts m (run cs t)
  unfolding run
  run-Counts [] n m t room e c = let e' : n ≡ m = ground arith in rw (← e') c
  run-Counts (begins ∷ cs) n m t room e c =
      run-Counts cs (suc n) m (begin api t) (omega arith) e (begin-Counts n t (omega arith) c)
  run-Counts (completes ∷ cs) zero m t room e c = absurd (cc)
  run-Counts (completes ∷ cs) (suc n) m t room e c =
      run-Counts cs n m (complete api t) (omega arith) e (complete-Counts n t c)

  -- After any history of calls of `begin` and `complete`, run one after another on a new tracker,
  -- that is shorter than 2 ^ 32 calls and completes only what began: `drain` returns at once, and
  -- changes nothing, if no task is outstanding, and waits if one is.
  pub drain-run :
      (cs : List Call) (n : ℕ)
      → length cs < u32_size
      → outstanding 0 cs ≡ some n
      → drain api (run cs (new api)) ≡ (if n == 0 then some (run cs (new api)) else none)
  unfolding drain
  drain-run cs n room e =
      let c = run-Counts cs 0 n (new api) (omega arith) e new-Counts in
      elim (zero_or_suc n) [
        | inl z ↦ ground (arith, c.counted, z)
        | inr (m, k) ↦ ground (arith, c.counted, k, c.busy (omega (arith, k)))
      ]
