-- ===== src/AsyncCom/Object.antt =====
-- src/async_com.rs: the object that holds an operation, the task that completes it, and `spawn_raw`.
use kcom_rs.Prelude.{
  ℕ, Bool, false, Option, none, some, List, [], ◌∷◌, Poll, ready, pending, ◌==◌, if◌then◌else◌,
}
use kcom_rs.Status.{NtStatus, Result, ok, err, status_success}
use kcom_rs.RefCount.{RefCounter}
use kcom_rs.Task.{Cancellable, Outcome, returned, panicked, undefined, try_finally, poll}
use kcom_rs.AsyncCom.{Operation, new_state, stores, store_result, store_error, store_canceled}

module _ {A B : Type 0} where
  infixl 5 ◌>>=◌
  abbrev pub ◌>>=◌ : Option A → (A → Option B) → Option B
  none >>= f = none
  some a >>= f = f a

-- A `ComObject` without an outer object: its counter, and whether its last release freed it.
pub record Object (T : Type 0) : Type 0 where
  pub refs : ℕ
  pub freed : Bool
  pub inner : Operation T

-- The `async` block of `spawn_raw_cancellable`. The guard that gives the task's reference back is
-- made by the first poll.
pub data AsyncTask (M : Type 0) : Type 0 where
  unstarted : M → AsyncTask M
  waiting : Cancellable M (Unit {0}) → AsyncTask M
  finished : AsyncTask M

module _ {T : Type 0} where
  unfoldable pub new_object : Operation T → Object T
  new_object inner = record { refs = 1; freed = false; inner = inner }

  unfoldable pub spawn_error_raw : Result (Unit {0}) → NtStatus → Result (Object T)
  unfolding new_object new_state stores store_error
  spawn_error_raw (err failure) status = err failure
  spawn_error_raw (ok _) status = ok (new_object (stores (store_error status) new_state))

module _ {T : Type 0} (counter : RefCounter) where
  -- `none` is an access to a freed object, or a call of the counter that does not return.
  unfoldable pub shim_add_ref : Object T → Option (Object T)
  shim_add_ref o = if o.freed then none else elim (counter.add o.refs) [
    | none ↦ none
    | some (count, value) ↦ some (record o { refs = count })
  ]

  unfoldable pub shim_release : Object T → Option (Object T)
  shim_release o = if o.freed then none else elim (counter.sub o.refs) [
    | none ↦ none
    | some (count, value) ↦ some (record o { refs = count; freed = value == 0 })
  ]

  -- The match on what `try_finally` gave, and the end of the block, which drops the guard.
  unfoldable pub conclude : Option T → Object T → Option (Object T)
  unfolding stores store_result store_canceled shim_release
  conclude (some value) o = shim_release (record o { inner = stores (store_result value) o.inner })
  conclude none o = shim_release (record o { inner = stores store_canceled o.inner })

  -- The two references are given back when the task cannot be spawned.
  release_both : Object T → Option (Object T)
  unfolding shim_release
  release_both o = do o ← shim_release o; shim_release o

  -- The allocation of the object and `spawn_dpc_task_cancellable` are parameters. The latter takes
  -- the task, or fails and drops it unpolled.
  unfoldable pub spawn_raw :
      {M : Type 0}
      → (allocated spawned : Result (Unit {0})) → M
      → Option (Result (AsyncTask M) × Option (Object T))
  unfolding new_object new_state shim_add_ref release_both
  spawn_raw (err status) spawned future = some (err status, none)
  spawn_raw (ok _) (ok _) future = do
    o ← shim_add_ref (new_object new_state)
    some (ok (unstarted future), some o)
  spawn_raw (ok _) (err status) future = do
    o ← shim_add_ref (new_object new_state)
    o ← release_both o
    some (err status, some o)

module _ {T M : Type 0} (counter : RefCounter) (poll_main : M → Poll T × M) where
  on_polled :
      Outcome T
      → Cancellable M (Unit {0})
      → Object T
      → Option (Poll NtStatus × AsyncTask M × Object T)
  unfolding conclude
  on_polled (returned (ready result)) c o = do
    o' ← conclude counter result o
    some (ready status_success, finished, o')
  on_polled (returned pending) c o = some (pending, waiting c, o)
  on_polled panicked c o = none
  on_polled undefined c o = none

  -- A poll of the block: the status it returns, the block and the object. `none` is a panic, the poll
  -- of a dropped future or an access to a freed object.
  resume :
      Bool → Cancellable M (Unit {0}) → Object T → Option (Poll NtStatus × AsyncTask M × Object T)
  unfolding poll on_polled
  resume cancelled c o = do
    p ← poll poll_main (λ _. (ready tt, tt)) cancelled c
    on_polled (p.0) (p.1) o

  unfoldable pub poll_block :
      Bool → AsyncTask M → Object T → Option (Poll NtStatus × AsyncTask M × Object T)
  unfolding resume try_finally
  poll_block cancelled (unstarted future) o = resume cancelled (try_finally future tt) o
  poll_block cancelled (waiting c) o = resume cancelled c o
  poll_block cancelled finished o = none

  -- The executor polls the task until it is ready; each poll may see a cancellation request.
  unfoldable pub drive : List Bool → AsyncTask M → Object T → Option (AsyncTask M × Object T)
  unfolding poll_block
  drive [] t o = some (t, o)
  drive (cancelled ∷ later) t o = elim (poll_block cancelled t o) [
    | none ↦ none
    | some (ready _, t', o') ↦ some (t', o')
    | some (pending, t', o') ↦ drive later t' o'
  ]
