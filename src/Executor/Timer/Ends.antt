-- ===== src/Executor/Timer/Ends.antt =====
-- The end of a kernel timer's routine, and the destructor of its future up to its first release
-- (src/executor.rs).
use kcom_rs.Prelude.{
  ℕ, suc, ◌≡◌, ◌≢◌, ◌⊎◌, inl, inr, ◌+◌, ◌<◌, refl, arith, Bool, true, false, ◌||◌, some, ◌==◌, ◌>>◌,
  ◌>>=◌, if◌then◌else◌,
}
use kcom_rs.RefCount.{RefCounter}
use kcom_rs.Executor.Timer.{
  Kernel, FuturePc, resting, stored, dropping, gone, loaded, cancelled_timer, removed_dpc,
  released_once, Timer, routine_releases, drop_begins, drop_cancels, drop_removes, step, release,
}
use kcom_rs.Executor.Timer.Inv.{
  Life, waiting, in_queue, fired_now, woken_now, over, count_of, future_refs, timer_at, Good, Keeps,
  keeps, stays, frees-live, freed_by,
}

module _ {K : Type 0} (rc : RefCounter) (tk : Kernel K) (room : 2 < rc.limit) where
  pub release_lem :
      (t : Timer K) (n : ℕ)
      → n < rc.limit
      → release rc tk (record t { ref_count = suc n; frees = 0 })
        ≡ some (tt, record t { ref_count = n; frees = if n == 0 then 0 + 1 else 0 })
  unfolding release
  release_lem t n h = ground (arith, rc.sub_within n h)

  pub bit : (b : Bool) → suc (count_of b) < rc.limit
  bit false = omega (arith, room)
  bit true = omega (arith, room)

  -- The future holds two references at most.
  pub few : (pc : FuturePc) → future_refs pc < rc.limit
  few resting = omega (arith, room)
  few stored = omega (arith, room)
  few dropping = omega (arith, room)
  few gone = omega (arith, room)
  few (loaded v) = omega (arith, room)
  few (cancelled_timer c) = bit c
  few (removed_dpc c r) = bit (c || r)
  few (released_once b) = omega (arith, bit b)

  pub taken_early : (l : Life) → (true ≡ false) ⊎ (l ≡ over) → l ≢ over → ⊥
  taken_early l (inl e) h = cc e
  taken_early l (inr e) h = h e

  pub routine_releases-Keeps :
      (l : Life) (pc : FuturePc) (t : Timer K)
      → Good tk l pc t
      → Keeps rc tk room (step rc tk routine_releases (timer_at l pc t))
  unfolding step
  routine_releases-Keeps woken_now pc t (p, taken) =
      keeps rc tk room over pc t
        (rw
          (
            ◌>>◌,
            ◌>>=◌,
            release_lem (timer_at woken_now pc t) (future_refs pc) (few pc),
            freed_by rc tk room (future_refs pc),
          )
          refl)
        (p, inr refl)
  routine_releases-Keeps waiting pc t g = stays rc tk room waiting pc t g
  routine_releases-Keeps in_queue pc t g = stays rc tk room in_queue pc t g
  routine_releases-Keeps fired_now pc t g = stays rc tk room fired_now pc t g
  routine_releases-Keeps over pc t g = stays rc tk room over pc t g

  pub drops-Keeps :
      (l : Life) (pc : FuturePc) (t : Timer K)
      → Good tk l pc t
      → Keeps rc tk room (step rc tk drop_begins (timer_at l pc t))
  unfolding step
  drops-Keeps l resting t (p, taken) =
      keeps rc tk room l dropping (record t { cancelled = true })
        (rw (frees-live rc tk room l 0) refl) (p, inl refl)
  drops-Keeps l stored t g = stays rc tk room l stored t g
  drops-Keeps l dropping t g = stays rc tk room l dropping t g
  drops-Keeps l gone t g = stays rc tk room l gone t g
  drops-Keeps l (loaded v) t g = stays rc tk room l (loaded v) t g
  drops-Keeps l (cancelled_timer c) t g = stays rc tk room l (cancelled_timer c) t g
  drops-Keeps l (removed_dpc c r) t g = stays rc tk room l (removed_dpc c r) t g
  drops-Keeps l (released_once b) t g = stays rc tk room l (released_once b) t g

  pub cancels-Keeps :
      (l : Life) (pc : FuturePc) (t : Timer K)
      → Good tk l pc t
      → Keeps rc tk room (step rc tk drop_cancels (timer_at l pc t))
  unfolding step
  cancels-Keeps waiting dropping t (p, taken) =
      let k = tk.cancel_ticking t.kernel p in
      keeps rc tk room over (cancelled_timer true)
        (record t { kernel = (tk.cancel_timer t.kernel).1 }) (rw (p, k.0) refl) (k.1, inr refl)
  cancels-Keeps in_queue dropping t (p, taken) =
      let k = tk.cancel_queued t.kernel p in
      keeps rc tk room in_queue (cancelled_timer false)
        (record t { kernel = (tk.cancel_timer t.kernel).1 }) (rw (p, k.0) refl) (k.1, inl refl)
  cancels-Keeps fired_now dropping t (p, taken) =
      let k = tk.cancel_idle t.kernel p in
      keeps rc tk room fired_now (cancelled_timer false)
        (record t { kernel = (tk.cancel_timer t.kernel).1 }) (rw (p, k.0) refl) (k.1, inl refl)
  cancels-Keeps woken_now dropping t (p, taken) =
      let k = tk.cancel_idle t.kernel p in
      keeps rc tk room woken_now (cancelled_timer false)
        (record t { kernel = (tk.cancel_timer t.kernel).1 }) (rw (p, k.0) refl) (k.1, inl refl)
  cancels-Keeps over dropping t (p, taken) =
      let k = tk.cancel_idle t.kernel p in
      keeps rc tk room over (cancelled_timer false)
        (record t { kernel = (tk.cancel_timer t.kernel).1 }) (rw (p, k.0) refl) (k.1, inl refl)
  cancels-Keeps l resting t g = stays rc tk room l resting t g
  cancels-Keeps l stored t g = stays rc tk room l stored t g
  cancels-Keeps l gone t g = stays rc tk room l gone t g
  cancels-Keeps l (loaded v) t g = stays rc tk room l (loaded v) t g
  cancels-Keeps l (cancelled_timer c) t g = stays rc tk room l (cancelled_timer c) t g
  cancels-Keeps l (removed_dpc c r) t g = stays rc tk room l (removed_dpc c r) t g
  cancels-Keeps l (released_once b) t g = stays rc tk room l (released_once b) t g

  pub removes-Keeps :
      (l : Life) (pc : FuturePc) (t : Timer K)
      → Good tk l pc t
      → Keeps rc tk room (step rc tk drop_removes (timer_at l pc t))
  unfolding step
  removes-Keeps in_queue (cancelled_timer false) t (p, taken) =
      let k = tk.remove_queued t.kernel p in
      keeps rc tk room over (removed_dpc false true)
        (record t { kernel = (tk.remove_dpc t.kernel).1 }) (rw (p, k.0) refl) (k.1, inr refl)
  removes-Keeps waiting (cancelled_timer false) t (p, taken) =
      let k = tk.remove_ticking t.kernel p in
      keeps rc tk room waiting (removed_dpc false false)
        (record t { kernel = (tk.remove_dpc t.kernel).1 }) (rw (p, k.0) refl) (k.1, inl refl)
  removes-Keeps fired_now (cancelled_timer false) t (p, taken) =
      let k = tk.remove_idle t.kernel p in
      keeps rc tk room fired_now (removed_dpc false false)
        (record t { kernel = (tk.remove_dpc t.kernel).1 }) (rw (p, k.0) refl) (k.1, inl refl)
  removes-Keeps woken_now (cancelled_timer false) t (p, taken) =
      let k = tk.remove_idle t.kernel p in
      keeps rc tk room woken_now (removed_dpc false false)
        (record t { kernel = (tk.remove_dpc t.kernel).1 }) (rw (p, k.0) refl) (k.1, inl refl)
  removes-Keeps over (cancelled_timer false) t (p, taken) =
      let k = tk.remove_idle t.kernel p in
      keeps rc tk room over (removed_dpc false false)
        (record t { kernel = (tk.remove_dpc t.kernel).1 }) (rw (p, k.0) refl) (k.1, inr refl)
  removes-Keeps over (cancelled_timer true) t (p, taken) =
      let k = tk.remove_idle t.kernel p in
      keeps rc tk room over (removed_dpc true false)
        (record t { kernel = (tk.remove_dpc t.kernel).1 }) (rw (p, k.0) refl) (k.1, inr refl)
  removes-Keeps waiting (cancelled_timer true) t (p, taken) =
      absurd (taken_early waiting taken (λ e. cc e))
  removes-Keeps in_queue (cancelled_timer true) t (p, taken) =
      absurd (taken_early in_queue taken (λ e. cc e))
  removes-Keeps fired_now (cancelled_timer true) t (p, taken) =
      absurd (taken_early fired_now taken (λ e. cc e))
  removes-Keeps woken_now (cancelled_timer true) t (p, taken) =
      absurd (taken_early woken_now taken (λ e. cc e))
  removes-Keeps l resting t g = stays rc tk room l resting t g
  removes-Keeps l stored t g = stays rc tk room l stored t g
  removes-Keeps l dropping t g = stays rc tk room l dropping t g
  removes-Keeps l gone t g = stays rc tk room l gone t g
  removes-Keeps l (loaded v) t g = stays rc tk room l (loaded v) t g
  removes-Keeps l (removed_dpc c r) t g = stays rc tk room l (removed_dpc c r) t g
  removes-Keeps l (released_once b) t g = stays rc tk room l (released_once b) t g
