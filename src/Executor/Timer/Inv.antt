-- ===== src/Executor/Timer/Inv.antt =====
-- The invariant of a kernel timer (src/executor.rs): who holds its references.
use kcom_rs.Prelude.{
  ℕ, zero, suc, ◌≡◌, ◌≢◌, ◌⊎◌, inl, inr, ◌+◌, ◌<◌, refl, arith, Bool, true, false, ◌||◌, Option,
  Returns, some, ◌==◌, if◌then◌else◌,
}
use kcom_rs.RefCount.{RefCounter}
use kcom_rs.Executor.Timer.{
  Kernel, Phase, idle, ticking, queued, FuturePc, resting, stored, dropping, gone, loaded,
  cancelled_timer, removed_dpc, released_once, RoutinePc, asleep, has_fired, has_woken, Timer,
  poll_begins, poll_stores, poll_arms, expires, routine_starts, routine_wakes, step, woken,
}

-- The life of the timer's own reference, which the first poll makes when it arms the timer.
pub data Life : Type 0 where
  waiting in_queue fired_now woken_now over : Life

abbrev pub phase_of : Life → Phase
phase_of waiting = ticking
phase_of in_queue = queued
phase_of fired_now = idle
phase_of woken_now = idle
phase_of over = idle

abbrev pub routine_of : Life → RoutinePc
routine_of waiting = asleep
routine_of in_queue = asleep
routine_of fired_now = has_fired
routine_of woken_now = has_woken
routine_of over = asleep

abbrev pub count_of : Bool → ℕ
count_of false = 0
count_of true = 1

-- Whether the destructor took the timer's reference over.
abbrev pub takes : FuturePc → Bool
takes (cancelled_timer c) = c
takes (removed_dpc c r) = c || r
takes (released_once again) = again
takes _ = false

-- The references that the future gives back.
abbrev pub future_refs : FuturePc → ℕ
future_refs (cancelled_timer c) = suc (count_of c)
future_refs (removed_dpc c r) = suc (count_of (c || r))
future_refs (released_once again) = count_of again
future_refs gone = 0
future_refs _ = 1

abbrev pub refs_of : Life → ℕ → ℕ
refs_of over n = n
refs_of _ n = suc n

abbrev pub one_if_zero : ℕ → ℕ
one_if_zero zero = 1
one_if_zero (suc n) = 0

abbrev pub frees_of : Life → ℕ → ℕ
frees_of over n = one_if_zero n
frees_of _ n = 0

-- An armed timer at a point of its two lives: the count is the references held, and it is freed once,
-- exactly when there is none. The other fields are those of `t`.
abbrev pub timer_at : {K : Type 0} → Life → FuturePc → Timer K → Timer K
timer_at l pc t = record t {
  ref_count = refs_of l (future_refs pc);
  armed = true;
  frees = frees_of l (future_refs pc);
  future = pc;
  routine = routine_of l;
}

abbrev pub Good : {K : Type 0} → Kernel K → Life → FuturePc → Timer K → Type 0
Good tk l pc t = (tk.phase t.kernel ≡ phase_of l) × ((takes pc ≡ false) ⊎ (l ≡ over))

module _ {K : Type 0} (rc : RefCounter) (tk : Kernel K) (room : 2 < rc.limit) where
  abbrev pub Inv : Timer K → Type 0
  Inv t' = (l : Life) × (pc : FuturePc) × (t : Timer K) × (t' ≡ timer_at l pc t) × Good tk l pc t

  abbrev pub Keeps : Option (Unit {0} × Timer K) → Type 0
  Keeps = Returns (λ u t. Inv t)

  pub keeps :
      {r : Option (Unit {0} × Timer K)} (l : Life) (pc : FuturePc) (t : Timer K)
      → r ≡ some (tt, timer_at l pc t)
      → Good tk l pc t
      → Keeps r
  keeps l pc t e g = rw e (l, pc, t, refl, g)

  pub stays : (l : Life) (pc : FuturePc) (t : Timer K) → Good tk l pc t → Inv (timer_at l pc t)
  stays l pc t g = (l, pc, t, refl, g)

  pub frees-live : (l : Life) (n : ℕ) → frees_of l (suc n) ≡ 0
  frees-live waiting n = refl
  frees-live in_queue n = refl
  frees-live fired_now n = refl
  frees-live woken_now n = refl
  frees-live over n = refl

  pub not_over : {l : Life} {b : Bool} → (b ≡ false) ⊎ (l ≡ over) → l ≢ over → b ≡ false
  not_over (inl e) h = e
  not_over (inr e) h = absurd (h e)

  pub freed_by : (n : ℕ) → (if n == 0 then 0 + 1 else 0) ≡ one_if_zero n
  freed_by zero = refl
  freed_by (suc n) = ground arith

  begins-on :
      (fired : Bool) (w : ℕ) (l : Life) (t : Timer K)
      → Good tk l resting t
      → Keeps (step rc tk (poll_begins w) (timer_at l resting (record t { fired = fired })))
  unfolding step
  begins-on true w l t g = keeps l resting (record t { fired = true }) (rw (frees-live l 0) refl) g
  begins-on false w l t g =
      keeps l (loaded w) (record t { fired = false; owed = some w }) (rw (frees-live l 0) refl) g

  pub begins-Keeps :
      (w : ℕ) (l : Life) (pc : FuturePc) (t : Timer K)
      → Good tk l pc t
      → Keeps (step rc tk (poll_begins w) (timer_at l pc t))
  unfolding step
  begins-Keeps w l resting t g = begins-on t.fired w l t g
  begins-Keeps w l stored t g = stays l stored t g
  begins-Keeps w l dropping t g = stays l dropping t g
  begins-Keeps w l gone t g = stays l gone t g
  begins-Keeps w l (loaded v) t g = stays l (loaded v) t g
  begins-Keeps w l (cancelled_timer c) t g = stays l (cancelled_timer c) t g
  begins-Keeps w l (removed_dpc c r) t g = stays l (removed_dpc c r) t g
  begins-Keeps w l (released_once b) t g = stays l (released_once b) t g

  pub stores-Keeps :
      (l : Life) (pc : FuturePc) (t : Timer K)
      → Good tk l pc t
      → Keeps (step rc tk poll_stores (timer_at l pc t))
  unfolding step
  stores-Keeps l (loaded w) t g =
      keeps l stored (record t { waker = some w }) (rw (frees-live l 0) refl) g
  stores-Keeps l resting t g = stays l resting t g
  stores-Keeps l stored t g = stays l stored t g
  stores-Keeps l dropping t g = stays l dropping t g
  stores-Keeps l gone t g = stays l gone t g
  stores-Keeps l (cancelled_timer c) t g = stays l (cancelled_timer c) t g
  stores-Keeps l (removed_dpc c r) t g = stays l (removed_dpc c r) t g
  stores-Keeps l (released_once b) t g = stays l (released_once b) t g

  pub arms-Keeps :
      (l : Life) (pc : FuturePc) (t : Timer K)
      → Good tk l pc t
      → Keeps (step rc tk poll_arms (timer_at l pc t))
  unfolding step
  arms-Keeps l stored t g = keeps l resting t (rw (frees-live l 0) refl) g
  arms-Keeps l resting t g = stays l resting t g
  arms-Keeps l dropping t g = stays l dropping t g
  arms-Keeps l gone t g = stays l gone t g
  arms-Keeps l (loaded v) t g = stays l (loaded v) t g
  arms-Keeps l (cancelled_timer c) t g = stays l (cancelled_timer c) t g
  arms-Keeps l (removed_dpc c r) t g = stays l (removed_dpc c r) t g
  arms-Keeps l (released_once b) t g = stays l (released_once b) t g

  pub expires-Keeps :
      (l : Life) (pc : FuturePc) (t : Timer K)
      → Good tk l pc t
      → Keeps (step rc tk expires (timer_at l pc t))
  unfolding step
  expires-Keeps waiting pc t (p, taken) =
      keeps in_queue pc (record t { kernel = tk.expire t.kernel }) (rw p refl)
        (tk.expire_lem t.kernel p, inl (not_over taken (λ e. cc e)))
  expires-Keeps in_queue pc t g = keeps in_queue pc t (rw (g.0) refl) g
  expires-Keeps fired_now pc t g = keeps fired_now pc t (rw (g.0) refl) g
  expires-Keeps woken_now pc t g = keeps woken_now pc t (rw (g.0) refl) g
  expires-Keeps over pc t g = keeps over pc t (rw (g.0) refl) g

  pub starts-Keeps :
      (l : Life) (pc : FuturePc) (t : Timer K)
      → Good tk l pc t
      → Keeps (step rc tk routine_starts (timer_at l pc t))
  unfolding step
  starts-Keeps in_queue pc t (p, taken) =
      keeps fired_now pc (record t { kernel = tk.start t.kernel; fired = true }) (rw p refl)
        (tk.start_lem t.kernel p, inl (not_over taken (λ e. cc e)))
  starts-Keeps waiting pc t g = keeps waiting pc t (rw (g.0) refl) g
  starts-Keeps fired_now pc t g = keeps fired_now pc t (rw (g.0) refl) g
  starts-Keeps woken_now pc t g = keeps woken_now pc t (rw (g.0) refl) g
  starts-Keeps over pc t g = keeps over pc t (rw (g.0) refl) g

  pub wakes-Keeps :
      (l : Life) (pc : FuturePc) (t : Timer K)
      → Good tk l pc t
      → Keeps (step rc tk routine_wakes (timer_at l pc t))
  unfolding step
  wakes-Keeps fired_now pc t (p, taken) =
      keeps woken_now pc
        (record t { owed = if t.cancelled then t.owed else woken rc tk t.waker t.owed }) refl
        (p, inl (not_over taken (λ e. cc e)))
  wakes-Keeps waiting pc t g = stays waiting pc t g
  wakes-Keeps in_queue pc t g = stays in_queue pc t g
  wakes-Keeps woken_now pc t g = stays woken_now pc t g
  wakes-Keeps over pc t g = stays over pc t g
