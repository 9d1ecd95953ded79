-- ===== src/Executor/Timer/Waking.antt =====
-- What a kernel timer owes to the polls of its future (src/executor.rs), as long as they have the same
-- waker, and that each step keeps it.
use kcom_rs.Prelude.{
  ℕ, ◌≡◌, ◌⊎◌, inl, inr, ◌<◌, ◌∙◌, refl, ap, arith, Bool, true, false, Option, none, some, Returns,
  List, [], ◌∷◌, ◌>>◌, ◌>>=◌, if◌then◌else◌,
}
use kcom_rs.RefCount.{RefCounter}
use kcom_rs.Executor.Timer.{
  Kernel, FuturePc, resting, stored, dropping, gone, loaded, cancelled_timer, removed_dpc,
  released_once, Timer, Event, poll_begins, poll_stores, poll_arms, expires, routine_starts,
  routine_wakes, routine_releases, drop_begins, drop_cancels, drop_removes, drop_releases,
  drop_releases_again, step, woken,
}
use kcom_rs.Executor.Timer.Inv.{
  Life, waiting, in_queue, fired_now, woken_now, over, phase_of, future_refs, timer_at, frees-live,
  freed_by,
}
use kcom_rs.Executor.Timer.Ends.{release_lem, few}

abbrev pub fired_of : Life → Bool
fired_of waiting = false
fired_of in_queue = false
fired_of _ = true

-- The routine has not yet woken anyone.
abbrev pub early : Life → Bool
early woken_now = false
early over = false
early _ = true

-- The future is not being dropped, and a poll that runs has the waker `w`.
abbrev pub Polling : ℕ → FuturePc → Type 0
Polling w resting = Unit
Polling w stored = Unit
Polling w (loaded v) = v ≡ w
Polling w _ = ⊥

abbrev pub Live : {K : Type 0} → Kernel K → ℕ → Life → Timer K → Type 0
Live tk w l t =
    (tk.phase t.kernel ≡ phase_of l)
    × (t.cancelled ≡ false)
    × (t.waker ≡ some w)
    × (t.fired ≡ fired_of l)
    × ((t.owed ≡ none) ⊎ (t.owed ≡ some w) × (early l ≡ true))

-- The event is no step of the destructor, and a poll has the waker `w`.
abbrev pub Polls : ℕ → Event → Type 0
Polls w (poll_begins v) = v ≡ w
Polls w drop_begins = ⊥
Polls w drop_cancels = ⊥
Polls w drop_removes = ⊥
Polls w drop_releases = ⊥
Polls w drop_releases_again = ⊥
Polls w _ = Unit

abbrev pub AllPoll : ℕ → List Event → Type 0
AllPoll w [] = Unit
AllPoll w (e ∷ es) = Polls w e × AllPoll w es

early_of : (l : Life) → false ≡ fired_of l → early l ≡ true
early_of waiting e = refl
early_of in_queue e = refl
early_of fired_now e = refl
early_of woken_now e = cc e
early_of over e = cc e

module _ {K : Type 0} (rc : RefCounter) (tk : Kernel K) (room : 2 < rc.limit) (w : ℕ) where
  abbrev pub Awake : Timer K → Type 0
  Awake t' =
      (l : Life) × (pc : FuturePc) × (t : Timer K) × (t' ≡ timer_at l pc t)
      × Polling w pc
      × Live tk w l t

  abbrev pub Keeps : Option (Unit {0} × Timer K) → Type 0
  Keeps = Returns (λ u t. Awake t)

  keeps :
      {r : Option (Unit {0} × Timer K)} (l : Life) (pc : FuturePc) (t : Timer K)
      → r ≡ some (tt, timer_at l pc t)
      → Polling w pc
      → Live tk w l t
      → Keeps r
  keeps l pc t e p v = rw e (l, pc, t, refl, p, v)

  begins-on :
      (fired : Bool) (l : Life) (t : Timer K)
      → fired ≡ t.fired
      → Live tk w l t
      → Keeps (step rc tk (poll_begins w) (timer_at l resting (record t { fired = fired })))
  unfolding step
  begins-on true l t e (p, c, k, f, o) =
      keeps l resting (record t { fired = true }) (rw (frees-live rc tk room l 0) refl) tt
        (p, c, k, e ∙ f, o)
  begins-on false l t e (p, c, k, f, o) =
      keeps l (loaded w) (record t { fired = false; owed = some w })
        (rw (frees-live rc tk room l 0) refl) refl (p, c, k, e ∙ f, inr (refl, early_of l (e ∙ f)))

  pub begins-Keeps :
      (l : Life) (pc : FuturePc) (t : Timer K)
      → Polling w pc
      → Live tk w l t
      → Keeps (step rc tk (poll_begins w) (timer_at l pc t))
  unfolding step
  begins-Keeps l resting t q v = begins-on t.fired l t refl v
  begins-Keeps l stored t q v = keeps l stored t refl q v
  begins-Keeps l (loaded u) t q v = keeps l (loaded u) t refl q v
  begins-Keeps l dropping t q v = absurd q
  begins-Keeps l gone t q v = absurd q
  begins-Keeps l (cancelled_timer c) t q v = absurd q
  begins-Keeps l (removed_dpc c r) t q v = absurd q
  begins-Keeps l (released_once b) t q v = absurd q

  pub stores-Keeps :
      (l : Life) (pc : FuturePc) (t : Timer K)
      → Polling w pc
      → Live tk w l t
      → Keeps (step rc tk poll_stores (timer_at l pc t))
  unfolding step
  stores-Keeps l (loaded u) t q (p, c, k, f, o) =
      keeps l stored (record t { waker = some u }) (rw (frees-live rc tk room l 0) refl) tt
        (p, c, ap some q, f, o)
  stores-Keeps l stored t q v = keeps l stored t refl q v
  stores-Keeps l resting t q v = keeps l resting t refl q v
  stores-Keeps l dropping t q v = absurd q
  stores-Keeps l gone t q v = absurd q
  stores-Keeps l (cancelled_timer c) t q v = absurd q
  stores-Keeps l (removed_dpc c r) t q v = absurd q
  stores-Keeps l (released_once b) t q v = absurd q

  pub arms-Keeps :
      (l : Life) (pc : FuturePc) (t : Timer K)
      → Polling w pc
      → Live tk w l t
      → Keeps (step rc tk poll_arms (timer_at l pc t))
  unfolding step
  arms-Keeps l stored t q v = keeps l resting t (rw (frees-live rc tk room l 0) refl) tt v
  arms-Keeps l resting t q v = keeps l resting t refl q v
  arms-Keeps l (loaded u) t q v = keeps l (loaded u) t refl q v
  arms-Keeps l dropping t q v = absurd q
  arms-Keeps l gone t q v = absurd q
  arms-Keeps l (cancelled_timer c) t q v = absurd q
  arms-Keeps l (removed_dpc c r) t q v = absurd q
  arms-Keeps l (released_once b) t q v = absurd q

  pub expires-Keeps :
      (l : Life) (pc : FuturePc) (t : Timer K)
      → Polling w pc
      → Live tk w l t
      → Keeps (step rc tk expires (timer_at l pc t))
  unfolding step
  expires-Keeps waiting pc t q (p, c, k, f, o) =
      keeps in_queue pc (record t { kernel = tk.expire t.kernel }) (rw p refl) q
        (tk.expire_lem t.kernel p, c, k, f, o)
  expires-Keeps in_queue pc t q v = keeps in_queue pc t (rw (v.0) refl) q v
  expires-Keeps fired_now pc t q v = keeps fired_now pc t (rw (v.0) refl) q v
  expires-Keeps woken_now pc t q v = keeps woken_now pc t (rw (v.0) refl) q v
  expires-Keeps over pc t q v = keeps over pc t (rw (v.0) refl) q v

  pub starts-Keeps :
      (l : Life) (pc : FuturePc) (t : Timer K)
      → Polling w pc
      → Live tk w l t
      → Keeps (step rc tk routine_starts (timer_at l pc t))
  unfolding step
  starts-Keeps in_queue pc t q (p, c, k, f, o) =
      keeps fired_now pc (record t { kernel = tk.start t.kernel; fired = true }) (rw p refl) q
        (tk.start_lem t.kernel p, c, k, refl, o)
  starts-Keeps waiting pc t q v = keeps waiting pc t (rw (v.0) refl) q v
  starts-Keeps fired_now pc t q v = keeps fired_now pc t (rw (v.0) refl) q v
  starts-Keeps woken_now pc t q v = keeps woken_now pc t (rw (v.0) refl) q v
  starts-Keeps over pc t q v = keeps over pc t (rw (v.0) refl) q v

  -- The stored waker is the one that is owed a wake-up.
  paid :
      (t : Timer K) (l : Life)
      → Live tk w l t
      → (if t.cancelled then t.owed else woken rc tk t.waker t.owed) ≡ none
  unfolding woken
  paid t l (p, c, k, f, inl o) = ground (arith, c, k, o)
  paid t l (p, c, k, f, inr (o, e)) = ground (arith, c, k, o)

  pub wakes-Keeps :
      (l : Life) (pc : FuturePc) (t : Timer K)
      → Polling w pc
      → Live tk w l t
      → Keeps (step rc tk routine_wakes (timer_at l pc t))
  unfolding step
  wakes-Keeps fired_now pc t q (p, c, k, f, o) =
      keeps woken_now pc
        (record t { owed = if t.cancelled then t.owed else woken rc tk t.waker t.owed }) refl q
        (p, c, k, f, inl (paid t fired_now (p, c, k, f, o)))
  wakes-Keeps waiting pc t q v = keeps waiting pc t refl q v
  wakes-Keeps in_queue pc t q v = keeps in_queue pc t refl q v
  wakes-Keeps woken_now pc t q v = keeps woken_now pc t refl q v
  wakes-Keeps over pc t q v = keeps over pc t refl q v

  pub routine_releases-Keeps :
      (l : Life) (pc : FuturePc) (t : Timer K)
      → Polling w pc
      → Live tk w l t
      → Keeps (step rc tk routine_releases (timer_at l pc t))
  unfolding step
  routine_releases-Keeps woken_now pc t q (p, c, k, f, o) =
      keeps over pc t
        (rw
          (
            ◌>>◌,
            ◌>>=◌,
            release_lem rc tk room (timer_at woken_now pc t) (future_refs pc) (few rc tk room pc),
            freed_by rc tk room (future_refs pc),
          )
          refl)
        q (p, c, k, f, o)
  routine_releases-Keeps waiting pc t q v = keeps waiting pc t refl q v
  routine_releases-Keeps in_queue pc t q v = keeps in_queue pc t refl q v
  routine_releases-Keeps fired_now pc t q v = keeps fired_now pc t refl q v
  routine_releases-Keeps over pc t q v = keeps over pc t refl q v
