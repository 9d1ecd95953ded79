-- ===== src/Tests/Timer.antt =====
-- Examples for the kernel timer of src/executor.rs.
use kcom_rs.Prelude.{refl, arith, Bool, true, false, Option, List, [], ◌∷◌}
use kcom_rs.RefCount.{hardened}
use kcom_rs.RefCount.Laws.{counter}
use kcom_rs.Executor.Timer.{
  Kernel, Phase, zeroed, idle, ticking, queued, has_fired, Event, poll_begins, poll_stores,
  poll_arms, expires, routine_starts, routine_wakes, routine_releases, drop_begins, drop_cancels,
  drop_removes, drop_releases, drop_releases_again, steps, step, new, Timer,
}
use kcom_rs.Executor.Timer.Inv.{Keeps}
use kcom_rs.Executor.Timer.Safety.{timer_lem}
use kcom_rs.Executor.Timer.Wakeups.{Settles, wakeups_lem}
use kcom_rs.Executor.Timer.Race.{IsLost, late_store, wakeup-IsLost}

abbrev cancelled_from : Phase → Bool × Phase
cancelled_from ticking = (true, idle)
cancelled_from p = (false, p)

abbrev removed_from : Phase → Bool × Phase
removed_from queued = (true, idle)
removed_from p = (false, p)

abbrev expired : Phase → Phase
expired ticking = queued
expired p = p

abbrev started : Phase → Phase
started queued = idle
started p = p

-- A kernel that knows the phase of one timer.
abbrev one_timer : Kernel Phase
one_timer = record {
  phase = λ k. k;
  initialize = λ k. idle;
  set_timer = λ due k. ticking;
  cancel_timer = cancelled_from;
  remove_dpc = removed_from;
  expire = expired;
  start = started;
  initialize_lem = λ k. refl;
  set_lem = λ due k e. refl;
  cancel_ticking = λ k e. rw e (refl, refl);
  cancel_idle = λ k e. rw e (refl, refl);
  cancel_queued = λ k e. rw e (refl, refl);
  remove_queued = λ k e. rw e (refl, refl);
  remove_idle = λ k e. rw e (refl, refl);
  remove_ticking = λ k e. rw e (refl, refl);
  expire_lem = λ k e. rw e refl;
  start_lem = λ k e. rw e refl;
}

abbrev unpolled : Timer Phase
unpolled = record {
  ref_count = 1;
  fired = false;
  armed = false;
  cancelled = false;
  waker = Option.none;
  due_time_100ns = 50;
  kernel = zeroed;
  frees = 0;
  future = kcom_rs.Executor.Timer.resting;
  routine = kcom_rs.Executor.Timer.asleep;
  owed = Option.none;
}

-- The future is dropped while the routine is in the queue.
abbrev dropped_in_queue : List Event
dropped_in_queue =
    expires ∷ drop_begins ∷ drop_cancels ∷ drop_removes ∷ drop_releases ∷ drop_releases_again ∷ []

timer_lem_example : Keeps (counter hardened) one_timer (omega arith) (
    steps
      (counter hardened)
      one_timer
      (poll_begins 4 ∷ poll_stores ∷ poll_arms ∷ dropped_in_queue)
      unpolled)
unfolding new
timer_lem_example =
    timer_lem (counter hardened) one_timer (omega arith) 4 50 zeroed unpolled dropped_in_queue refl

wakeups_lem_example : Settles (counter hardened) one_timer (omega arith) 4 (
    steps
      (counter hardened)
      one_timer
      (poll_begins 4 ∷ poll_stores ∷ poll_arms ∷ late_store 4)
      unpolled)
unfolding new
wakeups_lem_example =
    wakeups_lem (counter hardened) one_timer (omega arith) 4 50 zeroed unpolled (late_store 4) refl
      (refl, (tt, (tt, (tt, (tt, (tt, (tt, tt)))))))

wakeup-IsLost_example : IsLost (counter hardened) one_timer (omega arith) 9 (
    steps
      (counter hardened)
      one_timer
      (poll_begins 4 ∷ poll_stores ∷ poll_arms ∷ late_store 9)
      unpolled)
unfolding new
wakeup-IsLost_example =
    wakeup-IsLost (counter hardened) one_timer (omega arith) 4 9 50 zeroed unpolled
      (λ e. absurd (omega (arith, e))) refl
