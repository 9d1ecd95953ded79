-- ===== src/Tracker/Races.antt =====
-- The trackers of src/executor.rs with the steps of `begin` and `complete` interleaved: each is an
-- atomic update of `pending`, and then, in some cases, a call on the event. Between the two the
-- other processors may take steps of their own.
use kcom_rs.Prelude.{
  ℕ, zero, suc, ◌+◌, ◌-◌, ◌≤◌, ◌<◌, ◌≡◌, ◌≢◌, ◌⊎◌, refl, Bool, true, false, none, some, arith, inl,
  inr, zero_or_suc, ◌==◌, subst, u32_size, if◌then◌else◌,
}
use kcom_rs.Tracker.{
  EventApi, Tracker, new, drain, begin_count, begin_reset, complete_count, complete_signal,
}

module _ (api : EventApi) where
  open api use {Event, initialize, set, signalled, signalled-initialize, signalled-set}

  -- `initing` calls of `begin` have counted and must still reset the event; `setting` calls of
  -- `complete` have counted and must still signal it.
  pub record System : Type 0 where
    pub tracker : Tracker Event
    pub initing : ℕ
    pub setting : ℕ

  unfoldable pub start : System
  unfolding new
  start = record { tracker = new api; initing = 0; setting = 0 }

  unfoldable pub count_begin : System → System
  unfolding begin_count
  count_begin s =
      let (t, first) = begin_count api s.tracker in
      record s { tracker = t; initing = if first then s.initing + 1 else s.initing }

  unfoldable pub count_complete : System → System
  unfolding complete_count
  count_complete s =
      let (t, last) = complete_count api s.tracker in
      record s { tracker = t; setting = if last then s.setting + 1 else s.setting }

  -- A task completes after its own `begin` has returned, so while `initing` calls of `begin` are under
  -- way, that many of the outstanding tasks do not complete. A task may begin while a call of
  -- `complete` is about to signal the event only if `overlap` holds. The count does not wrap.
  pub data Step (overlap : Bool) (s : System) : System → Type 0 where
    begins :
        (overlap ≡ true) ⊎ (s.setting ≡ 0)
        → s.tracker.pending + 1 < u32_size
        → Step overlap s (count_begin s)
    resets :
        0 < s.initing
        → Step overlap s (record s { tracker = begin_reset api s.tracker; initing = s.initing - 1 })
    completes : s.initing < s.tracker.pending → Step overlap s (count_complete s)
    signals :
        0 < s.setting
        → Step overlap s
            (record s { tracker = complete_signal api s.tracker; setting = s.setting - 1 })

  pub data Reach (overlap : Bool) : System → Type 0 where
    here : Reach overlap start
    later : {s t : System} → Reach overlap s → Step overlap s t → Reach overlap t

  -- No call of `begin` or `complete` is under way.
  abbrev pub IsQuiet : System → Type 0
  IsQuiet s = (s.initing ≡ 0) × (s.setting ≡ 0)

  record Inv (s : System) : Type 0 where
    fits : s.tracker.pending < u32_size
    last : 0 < s.setting → s.tracker.pending ≡ 0
    first : s.initing ≤ s.tracker.pending
    reset : 0 < s.tracker.pending → s.initing ≡ 0 → signalled s.tracker.event ≡ false

  Step-Inv : {s t : System} → Step false s t → Inv s → Inv t
  unfolding count_begin count_complete begin_reset complete_signal
  Step-Inv (begins o h) v = ground arith
  Step-Inv (resets h) v = ground (arith, signalled-initialize false)
  Step-Inv (completes h) v = ground arith
  Step-Inv (signals h) v = ground arith

  Reach-Inv : {s : System} → Reach false s → Inv s
  unfolding start new
  Reach-Inv here = record {
    fits = omega arith;
    last = λ h. absurd (omega arith);
    first = omega arith;
    reset = λ h e. absurd (omega arith);
  }
  Reach-Inv (later r st) = Step-Inv st (Reach-Inv r)

  -- If no task ever begins while a call of `complete` is about to signal the event, then in every
  -- reachable state in which no call of `begin` or `complete` is under way, `drain` returns exactly
  -- if no task is outstanding.
  pub drain_sound :
      {s : System}
      → Reach false s
      → IsQuiet s
      → drain api s.tracker ≡ (if s.tracker.pending == 0 then some s.tracker else none)
  unfolding drain
  drain_sound {s} r q =
      let v = Reach-Inv r in
      elim (zero_or_suc s.tracker.pending) [
        | inl z ↦ ground (arith, z)
        | inr (m, k) ↦ ground (arith, k, v.reset (omega (arith, k)) q.0)
      ]

  -- `n + 1` tasks are outstanding, no call is under way, and the event is signalled.
  abbrev pub overtaken : ℕ → System
  overtaken n = record {
    tracker = record { pending = n + 1; event = set (initialize false) };
    initing = 0;
    setting = 0;
  }

  goes_to : {s t u : System} → Reach true s → Step true s t → t ≡ u → Reach true u
  goes_to r st e = subst (Reach true) e (later r st)

  -- One task runs to its end, but before its `complete` signals the event, another begins.
  Reach-overtaken_zero : Reach true (overtaken 0)
  unfolding count_begin count_complete begin_reset complete_signal start new
  Reach-overtaken_zero =
      goes_to
        (later
          (later
            (later (later (later here (begins (inl refl) (omega arith))) (resets (omega arith)))
              (completes (omega arith)))
            (begins (inl refl) (omega arith)))
          (resets (omega arith)))
        (signals (omega arith)) refl

  Reach-overtaken : (n : ℕ) → n + 1 < u32_size → Reach true (overtaken n)
  unfolding count_begin
  Reach-overtaken zero room = Reach-overtaken_zero
  Reach-overtaken (suc n) room =
      goes_to (Reach-overtaken n (omega arith)) (begins (inl refl) (omega arith)) (ground arith)

  -- Without that condition `drain` can return while tasks are outstanding: for every number of tasks
  -- there is a reachable state in which no call of `begin` or `complete` is under way, that many
  -- tasks are outstanding, and `drain` returns.
  pub drain_early :
      (n : ℕ)
      → n + 1 < u32_size
      → (s : System) × Reach true s
        × IsQuiet s
        × (s.tracker.pending ≡ n + 1)
        × (drain api s.tracker ≢ none)
  unfolding drain
  drain_early n room = (
    overtaken n,
    Reach-overtaken n room,
    (refl, refl),
    refl,
    ground (arith, signalled-set (initialize false)),
  )
