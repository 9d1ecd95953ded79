-- ===== src/Executor/Timer.antt =====
-- src/executor.rs: `KernelTimerInner` and `KernelTimerFuture`, whose future, timer routine and
-- destructor run on different processors, one access to the shared memory at a time.
pub mod Inv
pub mod Ends
pub mod Releases
pub mod Waking
pub mod Safety
pub mod Wakeups
pub mod Race
use kcom_rs.Prelude.{
  ℕ, ◌≡◌, Bool, true, false, ◌||◌, Option, none, some, List, [], ◌∷◌, ◌+◌, ◌==◌, if◌then◌else◌, M,
  ◌>>=◌, ◌>>◌, pure, get, put, lift, when,
}
use kcom_rs.Status.{NtStatus, Result, ok, err, status_insufficient_resources}
use kcom_rs.RefCount.{RefCounter}

-- Where the kernel has the timer: not initialised, in no queue, waiting for its due time, or with its
-- routine in the queue of deferred calls.
pub data Phase : Type 0 where
  zeroed idle ticking queued : Phase

-- The kernel's timers, a parameter: what `KeInitializeTimer` with `KeInitializeDpc`, `KeSetTimer`,
-- `KeCancelTimer` and `KeRemoveQueueDpc` do and answer, the expiry of a timer, and the start of its
-- routine.
pub record Kernel (K : Type 0) : Type 0 where
  pub phase : K → Phase
  pub initialize : K → K
  pub set_timer : (due : ℕ) → K → K
  pub cancel_timer : K → Bool × K
  pub remove_dpc : K → Bool × K
  pub expire : K → K
  pub start : K → K
  pub initialize_lem : (k : K) → phase (initialize k) ≡ idle
  pub set_lem : (due : ℕ) (k : K) → phase k ≡ idle → phase (set_timer due k) ≡ ticking
  pub cancel_ticking :
      (k : K) → phase k ≡ ticking → ((cancel_timer k).0 ≡ true) × (phase (cancel_timer k).1 ≡ idle)
  pub cancel_idle :
      (k : K) → phase k ≡ idle → ((cancel_timer k).0 ≡ false) × (phase (cancel_timer k).1 ≡ idle)
  pub cancel_queued :
      (k : K)
      → phase k ≡ queued
      → ((cancel_timer k).0 ≡ false) × (phase (cancel_timer k).1 ≡ queued)
  pub remove_queued :
      (k : K) → phase k ≡ queued → ((remove_dpc k).0 ≡ true) × (phase (remove_dpc k).1 ≡ idle)
  pub remove_idle :
      (k : K) → phase k ≡ idle → ((remove_dpc k).0 ≡ false) × (phase (remove_dpc k).1 ≡ idle)
  pub remove_ticking :
      (k : K) → phase k ≡ ticking → ((remove_dpc k).0 ≡ false) × (phase (remove_dpc k).1 ≡ ticking)
  pub expire_lem : (k : K) → phase k ≡ ticking → phase (expire k) ≡ queued
  pub start_lem : (k : K) → phase k ≡ queued → phase (start k) ≡ idle

-- Where the future is: between two polls, in a poll that found the timer not fired, in one that has
-- stored its waker, in the destructor after each of its steps, or gone.
pub data FuturePc : Type 0 where
  resting stored dropping gone : FuturePc
  loaded : (waker : ℕ) → FuturePc
  cancelled_timer : (cancelled : Bool) → FuturePc
  removed_dpc : (cancelled removed : Bool) → FuturePc
  released_once : (again : Bool) → FuturePc

-- Where the timer's routine is: not running, after its store to `fired`, or after the wake-up.
pub data RoutinePc : Type 0 where
  asleep has_fired has_woken : RoutinePc

-- `KernelTimerInner`, with the kernel's state of its timer and the places in the code. `owed` is the
-- waker of the last poll that found the timer not fired, until it is woken.
pub record Timer (K : Type 0) : Type 0 where
  pub ref_count : ℕ
  pub fired : Bool
  pub armed : Bool
  pub cancelled : Bool
  pub waker : Option ℕ
  pub due_time_100ns : ℕ
  pub kernel : K
  pub frees : ℕ
  pub future : FuturePc
  pub routine : RoutinePc
  pub owed : Option ℕ

-- `KernelTimerFuture::new`, with `KernelTimerInner::allocate`; the memory is there or not.
unfoldable pub new : {K : Type 0} → (allocated : Bool) → (due : ℕ) → K → Result (Timer K)
new false due zeroed_timer = err status_insufficient_resources
new true due zeroed_timer = ok (record {
  ref_count = 1;
  fired = false;
  armed = false;
  cancelled = false;
  waker = none;
  due_time_100ns = due;
  kernel = zeroed_timer;
  frees = 0;
  future = resting;
  routine = asleep;
  owed = none;
})

pub data Event : Type 0 where
  poll_begins : (waker : ℕ) → Event
  poll_stores poll_arms : Event
  expires routine_starts routine_wakes routine_releases : Event
  drop_begins drop_cancels drop_removes drop_releases drop_releases_again : Event

module _ {K : Type 0} (rc : RefCounter) (tk : Kernel K) where
  -- The inner state, which is gone once it is freed.
  access : M (Timer K) (Timer K)
  access t = if t.frees == 0 then some (t, t) else none

  add_ref : M (Timer K) (Unit {0})
  unfolding access
  add_ref = do t ← access; p ← lift (rc.add t.ref_count); put (record t { ref_count = p.0 })

  unfoldable pub release : M (Timer K) (Unit {0})
  unfolding access
  release = do
    t ← access
    p ← lift (rc.sub t.ref_count)
    put (record t { ref_count = p.0; frees = if p.1 == 0 then t.frees + 1 else t.frees })

  -- An event that the places in the code do not allow changes nothing.
  on_begin : ℕ → FuturePc → M (Timer K) (Unit {0})
  unfolding access
  on_begin w resting = do
    t ← access
    if t.fired then pure tt else put (record t { future = loaded w; owed = some w })
  on_begin w _ = pure tt

  on_store : FuturePc → M (Timer K) (Unit {0})
  unfolding access
  on_store (loaded w) = do t ← access; put (record t { waker = some w; future = stored })
  on_store _ = pure tt

  modify : (Timer K → Timer K) → M (Timer K) (Unit {0})
  modify f t = some (tt, f t)

  -- The branch of the poll whose compare-exchange on `armed` succeeds.
  arm : M (Timer K) (Unit {0})
  unfolding add_ref modify
  arm =
      modify (λ t. record t { armed = true })
      >> add_ref
      >> modify (λ t. record t {
        kernel = tk.set_timer t.due_time_100ns (tk.initialize t.kernel);
        future = resting;
      })

  on_arm : FuturePc → M (Timer K) (Unit {0})
  unfolding access arm
  on_arm stored = access >>= λ t. if t.armed then put (record t { future = resting }) else arm
  on_arm _ = pure tt

  on_expire : Phase → M (Timer K) (Unit {0})
  on_expire ticking = get >>= λ t. put (record t { kernel = tk.expire t.kernel })
  on_expire _ = pure tt

  on_start : Phase → RoutinePc → M (Timer K) (Unit {0})
  unfolding access
  on_start queued asleep = do
    t ← access
    put (record t { kernel = tk.start t.kernel; fired = true; routine = has_fired })
  on_start _ _ = pure tt

  -- `wake_by_ref` on the stored waker.
  unfoldable pub woken : (stored_waker owed : Option ℕ) → Option ℕ
  woken none owed = owed
  woken (some w) none = none
  woken (some w) (some v) = if w == v then none else some v

  on_wake : RoutinePc → M (Timer K) (Unit {0})
  unfolding access woken
  on_wake has_fired = do
    t ← access
    put (record t {
      owed = if t.cancelled then t.owed else woken t.waker t.owed;
      routine = has_woken;
    })
  on_wake _ = pure tt

  on_routine_release : RoutinePc → M (Timer K) (Unit {0})
  unfolding release
  on_routine_release has_woken = release >> get >>= λ t. put (record t { routine = asleep })
  on_routine_release _ = pure tt

  on_drop : FuturePc → M (Timer K) (Unit {0})
  unfolding access
  on_drop resting = do t ← access; put (record t { cancelled = true; future = dropping })
  on_drop _ = pure tt

  -- The kernel is only given an object that was initialised.
  initialised : Phase → M (Timer K) (Unit {0})
  initialised zeroed t = none
  initialised _ t = some (tt, t)

  on_cancel : FuturePc → M (Timer K) (Unit {0})
  unfolding access initialised
  on_cancel dropping = access >>= λ t.
      initialised (tk.phase t.kernel)
      >> put (record t {
        kernel = (tk.cancel_timer t.kernel).1;
        future = cancelled_timer ((tk.cancel_timer t.kernel).0);
      })
  on_cancel _ = pure tt

  on_remove : FuturePc → M (Timer K) (Unit {0})
  unfolding access initialised
  on_remove (cancelled_timer c) = access >>= λ t.
      initialised (tk.phase t.kernel)
      >> put (record t {
        kernel = (tk.remove_dpc t.kernel).1;
        future = removed_dpc c ((tk.remove_dpc t.kernel).0);
      })
  on_remove _ = pure tt

  on_release : FuturePc → M (Timer K) (Unit {0})
  unfolding release
  on_release (removed_dpc c r) =
      release >> get >>= λ t. put (record t { future = released_once (c || r) })
  on_release _ = pure tt

  on_release_again : FuturePc → M (Timer K) (Unit {0})
  unfolding release
  on_release_again (released_once again) =
      when again release >> get >>= λ t. put (record t { future = gone })
  on_release_again _ = pure tt

  unfoldable pub step : Event → M (Timer K) (Unit {0})
  unfolding on_begin on_store on_arm on_expire on_start on_wake on_routine_release on_drop on_cancel
      on_remove on_release on_release_again
  step (poll_begins w) t = on_begin w t.future t
  step poll_stores t = on_store t.future t
  step poll_arms t = on_arm t.future t
  step expires t = on_expire (tk.phase t.kernel) t
  step routine_starts t = on_start (tk.phase t.kernel) t.routine t
  step routine_wakes t = on_wake t.routine t
  step routine_releases t = on_routine_release t.routine t
  step drop_begins t = on_drop t.future t
  step drop_cancels t = on_cancel t.future t
  step drop_removes t = on_remove t.future t
  step drop_releases t = on_release t.future t
  step drop_releases_again t = on_release_again t.future t

  unfoldable pub steps : List Event → M (Timer K) (Unit {0})
  unfolding step
  steps [] = pure tt
  steps (e ∷ es) = step e >> steps es
