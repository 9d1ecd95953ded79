-- ===== src/Executor/Timer/Race.antt =====
-- A kernel timer (src/executor.rs) whose polls have different wakers can fire without waking the last.
use kcom_rs.Prelude.{
  ℕ, ◌≡◌, ◌≢◌, ◌<◌, ◌∙◌, refl, arith, true, Option, none, some, List, [], ◌∷◌, ◌>>◌, ◌>>=◌,
}
use kcom_rs.Status.{ok}
use kcom_rs.RefCount.{RefCounter}
use kcom_rs.Executor.Timer.{
  Kernel, ticking, queued, resting, stored, loaded, asleep, Timer, Event, poll_begins, poll_stores,
  poll_arms, expires, routine_starts, routine_wakes, routine_releases, step, steps, woken, new,
}
use kcom_rs.Executor.Timer.Inv.{waiting, in_queue, fired_now, woken_now, over, timer_at}
use kcom_rs.Executor.Timer.Ends.{release_lem}
use kcom_rs.Executor.Timer.Safety.{polled, first_poll}

-- A second poll reads `fired`; then the timer expires and its routine runs to the wake-up; then the
-- poll stores its waker and returns.
abbrev pub late_store : ℕ → List Event
late_store w =
    poll_begins w
    ∷ expires
    ∷ routine_starts
    ∷ routine_wakes
    ∷ poll_stores
    ∷ poll_arms
    ∷ routine_releases
    ∷ []

module _ {K : Type 0} (rc : RefCounter) (tk : Kernel K) (room : 2 < rc.limit) where
  -- The poll returned `Pending` and the routine is over, but the poll's waker was not woken.
  abbrev pub IsLost : ℕ → Option (Unit {0} × Timer K) → Type 0
  IsLost w none = ⊥
  IsLost w (some (u, t)) =
      (t.owed ≡ some w) × (t.fired ≡ true) × (t.future ≡ resting) × (t.routine ≡ asleep)

  one :
      (e : Event) (es : List Event) (t t' : Timer K)
      → step rc tk e t ≡ some (tt, t')
      → steps rc tk (e ∷ es) t ≡ steps rc tk es t'
  unfolding steps
  one e es t t' h = rw (◌>>◌, ◌>>=◌, h) refl

  left-IsLost :
      (w : ℕ) (t : Timer K)
      → t.owed ≡ some w
      → t.fired ≡ true
      → IsLost w (steps rc tk [] (timer_at over resting t))
  unfolding steps
  left-IsLost w t o f = (o, f, refl, refl)

  -- If the second poll has another waker than the first and the timer fires between its check and its
  -- store, then no one wakes the second waker: the wake-up went to the first.
  pub wakeup-IsLost :
      (v w due : ℕ) (k : K) (t : Timer K)
      → v ≢ w
      → new true due k ≡ ok t
      → IsLost w (steps rc tk (poll_begins v ∷ poll_stores ∷ poll_arms ∷ late_store w) t)
  unfolding step woken
  wakeup-IsLost v w due k t differ e =
      let p = polled rc tk room v due k in
      let k1 = tk.set_timer due (tk.initialize k) in
      let set : tk.phase k1 ≡ ticking = tk.set_lem due (tk.initialize k) (tk.initialize_lem k) in
      let t1 = record p { owed = some w } in
      let t2 = record t1 { kernel = tk.expire k1 } in
      let fire : tk.phase (tk.expire k1) ≡ queued = tk.expire_lem k1 set in
      let t3 = record t1 { kernel = tk.start (tk.expire k1); fired = true } in
      let t4 = record t3 { waker = some w } in
      rw
        (first_poll rc tk room v due k t (late_store w) e
          ∙ one (poll_begins w) _ p (timer_at waiting (loaded w) t1) refl
          ∙ one expires _ (timer_at waiting (loaded w) t1) (timer_at in_queue (loaded w) t2)
              (rw set refl)
          ∙ one routine_starts _ (timer_at in_queue (loaded w) t2)
              (timer_at fired_now (loaded w) t3) (rw fire refl)
          ∙ one routine_wakes _ (timer_at fired_now (loaded w) t3)
              (timer_at woken_now (loaded w) t3) (ground (arith, differ))
          ∙ one poll_stores _ (timer_at woken_now (loaded w) t3) (timer_at woken_now stored t4) refl
          ∙ one poll_arms _ (timer_at woken_now stored t4) (timer_at woken_now resting t4) refl
          ∙ one routine_releases [] (timer_at woken_now resting t4) (timer_at over resting t4) (
              rw
                (
                  ◌>>◌,
                  ◌>>=◌,
                  release_lem rc tk room (timer_at woken_now resting t4) 1 (omega (arith, room)),
                )
                refl))
        (left-IsLost w t4 refl refl)
