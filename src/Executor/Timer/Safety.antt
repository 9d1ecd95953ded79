-- ===== src/Executor/Timer/Safety.antt =====
-- The references of a kernel timer (src/executor.rs), in any order of the steps of its future, the
-- timer's routine and the destructor.
use kcom_rs.Prelude.{
  Returns-bind, sym, subst, List, [], ◌∷◌, ℕ, ◌≡◌, inl, ◌<◌, refl, arith, true, false, none, some,
}
use kcom_rs.Status.{ok}
use kcom_rs.RefCount.{RefCounter}
use kcom_rs.Executor.Timer.{
  Kernel, FuturePc, resting, asleep, Timer, Event, poll_begins, poll_stores, poll_arms, expires,
  routine_starts, routine_wakes, routine_releases, drop_begins, drop_cancels, drop_removes,
  drop_releases, drop_releases_again, step, steps, new,
}
use kcom_rs.Executor.Timer.Inv.{
  Life, waiting, timer_at, Good, Inv, Keeps, begins-Keeps, stores-Keeps, arms-Keeps, expires-Keeps,
  starts-Keeps, wakes-Keeps,
}
use kcom_rs.Executor.Timer.Ends.{routine_releases-Keeps, drops-Keeps, cancels-Keeps, removes-Keeps}
use kcom_rs.Executor.Timer.Releases.{releases-Keeps, releases_again-Keeps}

module _ {K : Type 0} (rc : RefCounter) (tk : Kernel K) (room : 2 < rc.limit) where
  step-Keeps :
      (e : Event) (l : Life) (pc : FuturePc) (t : Timer K)
      → Good tk l pc t
      → Keeps rc tk room (step rc tk e (timer_at l pc t))
  step-Keeps (poll_begins w) l pc t g = begins-Keeps rc tk room w l pc t g
  step-Keeps poll_stores l pc t g = stores-Keeps rc tk room l pc t g
  step-Keeps poll_arms l pc t g = arms-Keeps rc tk room l pc t g
  step-Keeps expires l pc t g = expires-Keeps rc tk room l pc t g
  step-Keeps routine_starts l pc t g = starts-Keeps rc tk room l pc t g
  step-Keeps routine_wakes l pc t g = wakes-Keeps rc tk room l pc t g
  step-Keeps routine_releases l pc t g = routine_releases-Keeps rc tk room l pc t g
  step-Keeps drop_begins l pc t g = drops-Keeps rc tk room l pc t g
  step-Keeps drop_cancels l pc t g = cancels-Keeps rc tk room l pc t g
  step-Keeps drop_removes l pc t g = removes-Keeps rc tk room l pc t g
  step-Keeps drop_releases l pc t g = releases-Keeps rc tk room l pc t g
  step-Keeps drop_releases_again l pc t g = releases_again-Keeps rc tk room l pc t g

  steps-Keeps :
      (es : List Event) (t : Timer K) → Inv rc tk room t → Keeps rc tk room (steps rc tk es t)
  unfolding steps
  steps-Keeps [] t v = v
  steps-Keeps (e ∷ es) t' (l, pc, t, is, g) =
      subst (λ x. Keeps rc tk room (steps rc tk (e ∷ es) x)) (sym is)
        (Returns-bind (λ u s. Inv rc tk room s) (λ u s. Inv rc tk room s)
          (step rc tk e (timer_at l pc t)) (λ u s. steps rc tk es s) (step-Keeps e l pc t g)
          (λ u s v. steps-Keeps es s v))

  -- A new timer after the first poll of its future.
  abbrev pub polled : (w due : ℕ) → K → Timer K
  polled w due k = record {
    ref_count = 2;
    fired = false;
    armed = true;
    cancelled = false;
    waker = some w;
    due_time_100ns = due;
    kernel = tk.set_timer due (tk.initialize k);
    frees = 0;
    future = resting;
    routine = asleep;
    owed = some w;
  }

  pub first_poll :
      (w due : ℕ) (k : K) (t : Timer K) (es : List Event)
      → new true due k ≡ ok t
      → steps rc tk (poll_begins w ∷ poll_stores ∷ poll_arms ∷ es) t
        ≡ steps rc tk es (polled w due k)
  unfolding new steps step
  first_poll w due k t es e =
      let is : t ≡ record (polled w due k) {
        ref_count = 1;
        armed = false;
        waker = none;
        kernel = k;
        owed = none;
      } =
        cc e in
      rw is (ground (arith, rc.add_within 1 (omega (arith, room))))

  -- The future of a new timer is polled once, and then the further polls, the kernel, the timer's
  -- routine and the destructor take their steps in any order. No step touches freed memory or hands
  -- the kernel a timer that was not initialised. The count is always the number of holders that are
  -- left: the future, and the timer's reference, which the routine gives back if it runs and the
  -- destructor if it took the timer from the kernel, never both. The memory is freed once, when the
  -- last of them gives its reference back.
  pub timer_lem :
      (w due : ℕ) (k : K) (t : Timer K) (es : List Event)
      → new true due k ≡ ok t
      → Keeps rc tk room (steps rc tk (poll_begins w ∷ poll_stores ∷ poll_arms ∷ es) t)
  timer_lem w due k t es e = rw (first_poll w due k t es e) (
      steps-Keeps es (polled w due k) (
        waiting,
        resting,
        polled w due k,
        refl,
        (tk.set_lem due (tk.initialize k) (tk.initialize_lem k), inl refl),
      ))
