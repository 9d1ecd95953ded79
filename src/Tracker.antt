-- ===== src/Tracker.antt =====
-- src/executor.rs: `TaskTracker` and `WorkItemTracker`, which count outstanding tasks so that a
-- driver can wait for them before it unloads. The two types have the same code.
--
-- The event is the kernel's `KEVENT`, a parameter: the interface below is what its documentation
-- says of a synchronization event.
pub mod Sequential
pub mod Races
use kcom_rs.Prelude.{
  ℕ, ◌+◌, ◌-◌, ◌%◌, ◌^◌, ◌≡◌, refl, Bool, true, false, Option, none, some, ◌==◌, if◌then◌else◌,
  u32_size,
}

pub record EventApi : Type 1 where
  pub Event : Type 0
  -- `KeInitializeEvent(event, SynchronizationEvent, state)`
  pub initialize : Bool → Event
  -- `KeSetEvent`
  pub set : Event → Event
  -- whether `KeWaitForSingleObject` with no timeout returns, and the event after it has returned
  pub signalled : Event → Bool
  pub consume : Event → Event
  pub signalled-initialize : (b : Bool) → signalled (initialize b) ≡ b
  pub signalled-set : (e : Event) → signalled (set e) ≡ true
  pub signalled-consume : (e : Event) → signalled (consume e) ≡ false

-- An event that is nothing but its state.
abbrev pub flag_events : EventApi
flag_events = record {
  Event = Bool;
  initialize = λ b. b;
  set = λ e. true;
  signalled = λ e. e;
  consume = λ e. false;
  signalled-initialize = λ b. refl;
  signalled-set = λ e. refl;
  signalled-consume = λ e. refl;
}

pub record Tracker (E : Type 0) : Type 0 where
  pub pending : ℕ  -- AtomicU32
  pub event : E

module _ (api : EventApi) where
  open api use {Event, initialize, set, signalled, consume}

  unfoldable pub new : Tracker Event
  new = record { pending = 0; event = initialize true }

  -- The two halves of `begin`: the atomic `fetch_add`, with the test of the count before it, and the
  -- reset of the event, which follows if that count was 0.
  unfoldable pub begin_count : Tracker Event → Tracker Event × Bool
  begin_count t = (record t { pending = (t.pending + 1) % u32_size }, t.pending == 0)

  unfoldable pub begin_reset : Tracker Event → Tracker Event
  begin_reset t = record t { event = initialize false }

  unfoldable pub begin : Tracker Event → Tracker Event
  unfolding begin_count begin_reset
  begin t = let (t', first) = begin_count t in if first then begin_reset t' else t'

  -- So for `complete`, which signals the event if it counted down from 1.
  unfoldable pub complete_count : Tracker Event → Tracker Event × Bool
  complete_count t = (record t { pending = (t.pending + u32_size - 1) % u32_size }, t.pending == 1)

  unfoldable pub complete_signal : Tracker Event → Tracker Event
  complete_signal t = record t { event = set t.event }

  unfoldable pub complete : Tracker Event → Tracker Event
  unfolding complete_count complete_signal
  complete t = let (t', last) = complete_count t in if last then complete_signal t' else t'

  -- `none` means that the caller waits.
  unfoldable pub drain : Tracker Event → Option (Tracker Event)
  drain t =
      if t.pending == 0
      then some t
      else if signalled t.event
      then some (record t { event = consume t.event })
      else none

  -- `task_tracker_begin`, `task_tracker_complete`, `tracker_begin` and `tracker_complete`, which take
  -- a pointer that may be null.
  unfoldable pub task_tracker_begin : Option (Tracker Event) → Option (Tracker Event)
  unfolding begin
  task_tracker_begin none = none
  task_tracker_begin (some t) = some (begin t)

  unfoldable pub task_tracker_complete : Option (Tracker Event) → Option (Tracker Event)
  unfolding complete
  task_tracker_complete none = none
  task_tracker_complete (some t) = some (complete t)
