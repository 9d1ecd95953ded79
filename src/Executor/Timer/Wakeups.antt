-- ===== src/Executor/Timer/Wakeups.antt =====
-- The wake-ups of a kernel timer (src/executor.rs): every poll that found the timer not fired is
-- followed by one, as long as the polls have the same waker.
use kcom_rs.Prelude.{
  ℕ, ◌≡◌, ◌⊎◌, inl, inr, ◌<◌, sym, subst, refl, true, false, Option, none, some, Returns-bind, List,
  [], ◌∷◌,
}
use kcom_rs.Status.{ok}
use kcom_rs.RefCount.{RefCounter}
use kcom_rs.Executor.Timer.{
  Kernel, FuturePc, resting, has_fired, Timer, Event, poll_begins, poll_stores, poll_arms, expires,
  routine_starts, routine_wakes, routine_releases, drop_begins, drop_cancels, drop_removes,
  drop_releases, drop_releases_again, step, steps, new,
}
use kcom_rs.Executor.Timer.Inv.{Life, waiting, in_queue, fired_now, woken_now, over, timer_at}
use kcom_rs.Executor.Timer.Safety.{polled, first_poll}
use kcom_rs.Executor.Timer.Waking.{
  Polling, Live, Polls, AllPoll, Awake, Keeps, begins-Keeps, stores-Keeps, arms-Keeps,
  expires-Keeps, starts-Keeps, wakes-Keeps, routine_releases-Keeps,
}

module _ {K : Type 0} (rc : RefCounter) (tk : Kernel K) (room : 2 < rc.limit) (w : ℕ) where
  step-Keeps :
      (e : Event) (l : Life) (pc : FuturePc) (t : Timer K)
      → Polls w e
      → Polling w pc
      → Live tk w l t
      → Keeps rc tk room w (step rc tk e (timer_at l pc t))
  step-Keeps (poll_begins u) l pc t a q v =
      subst (λ x. Keeps rc tk room w (step rc tk (poll_begins x) (timer_at l pc t))) (sym a)
        (begins-Keeps rc tk room w l pc t q v)
  step-Keeps poll_stores l pc t a q v = stores-Keeps rc tk room w l pc t q v
  step-Keeps poll_arms l pc t a q v = arms-Keeps rc tk room w l pc t q v
  step-Keeps expires l pc t a q v = expires-Keeps rc tk room w l pc t q v
  step-Keeps routine_starts l pc t a q v = starts-Keeps rc tk room w l pc t q v
  step-Keeps routine_wakes l pc t a q v = wakes-Keeps rc tk room w l pc t q v
  step-Keeps routine_releases l pc t a q v = routine_releases-Keeps rc tk room w l pc t q v
  step-Keeps drop_begins l pc t a q v = absurd a
  step-Keeps drop_cancels l pc t a q v = absurd a
  step-Keeps drop_removes l pc t a q v = absurd a
  step-Keeps drop_releases l pc t a q v = absurd a
  step-Keeps drop_releases_again l pc t a q v = absurd a

  steps-Keeps :
      (es : List Event) (t : Timer K)
      → AllPoll w es
      → Awake rc tk room w t
      → Keeps rc tk room w (steps rc tk es t)
  unfolding steps
  steps-Keeps [] t all v = v
  steps-Keeps (e ∷ es) t' (a, all) (l, pc, t, is, q, v) =
      subst (λ x. Keeps rc tk room w (steps rc tk (e ∷ es) x)) (sym is)
        (Returns-bind (λ u s. Awake rc tk room w s) (λ u s. Awake rc tk room w s)
          (step rc tk e (timer_at l pc t)) (λ u s. steps rc tk es s) (step-Keeps e l pc t a q v)
          (λ u s x. steps-Keeps es s all x))

  -- No poll is owed a wake-up, or the timer has not fired, or its routine is about to wake.
  abbrev pub Settles : Option (Unit {0} × Timer K) → Type 0
  Settles none = ⊥
  Settles (some (u, t)) = (t.owed ≡ none) ⊎ (t.fired ≡ false) ⊎ (t.routine ≡ has_fired)

  settled : (r : Option (Unit {0} × Timer K)) → Keeps rc tk room w r → Settles r
  settled none v = v
  settled (some (u, t')) (l, pc, t, is, q, (p, c, k, f, inl o)) = inl (rw is o)
  settled (some (u, t')) (waiting, pc, t, is, q, (p, c, k, f, inr o)) = inr (inl (rw is f))
  settled (some (u, t')) (in_queue, pc, t, is, q, (p, c, k, f, inr o)) = inr (inl (rw is f))
  settled (some (u, t')) (fired_now, pc, t, is, q, (p, c, k, f, inr o)) = inr (inr (rw is refl))
  settled (some (u, t')) (woken_now, pc, t, is, q, (p, c, k, f, inr o)) = cc (o.1)
  settled (some (u, t')) (over, pc, t, is, q, (p, c, k, f, inr o)) = cc (o.1)

  -- The future of a new timer is polled once, and then further polls, all with the same waker, the
  -- kernel and the timer's routine take their steps in any order; the future is not dropped. Every
  -- poll that found the timer not fired is woken: once the timer has fired and its routine has passed
  -- the wake-up, no poll is owed one.
  pub wakeups_lem :
      (due : ℕ) (k : K) (t : Timer K) (es : List Event)
      → new true due k ≡ ok t
      → AllPoll w es
      → Settles (steps rc tk (poll_begins w ∷ poll_stores ∷ poll_arms ∷ es) t)
  wakeups_lem due k t es e all = rw (first_poll rc tk room w due k t es e) (
      settled (steps rc tk es (polled rc tk room w due k)) (
        steps-Keeps es (polled rc tk room w due k) all (
          waiting,
          resting,
          polled rc tk room w due k,
          refl,
          tt,
          (
            tk.set_lem due (tk.initialize k) (tk.initialize_lem k),
            refl,
            refl,
            refl,
            inr (refl, refl),
          ),
        )))
