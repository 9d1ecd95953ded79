-- ===== src/AsyncCom/Readers.antt =====
-- What other threads read of an operation (src/async_com.rs) while its stores are under way.
use kcom_rs.Prelude.{
  ℕ, zero, suc, ◌≡◌, refl, Option, none, some, List, [], false, arith, take, length, ltb, ◌==◌,
  if◌then◌else◌,
}
use kcom_rs.Status.{NtStatus, Result, ok, err, status_success, status_pending, status_cancelled}
use kcom_rs.AsyncCom.{
  AsyncStatus, started, completed, canceled, error, Store, object, new_state, stores, store_result,
  store_error, store_canceled, get_status_raw, get_result_raw,
}

-- How an operation ends.
pub data Ending (T : Type 0) : Type 0 where
  completes : T → Ending T
  cancels : Ending T
  fails : NtStatus → Ending T

module _ {T : Type 0} where
  abbrev pub stores_of : Ending T → List (Store T)
  stores_of (completes value) = store_result value
  stores_of cancels = store_canceled
  stores_of (fails status) = store_error status

  abbrev pub status_of : Ending T → AsyncStatus
  status_of (completes value) = completed
  status_of cancels = canceled
  status_of (fails status) = error

  -- A failure whose status is that of success makes the reader use a value that was not written.
  abbrev pub result_of : Ending T → Option (Result T)
  result_of (completes value) = some (ok value)
  result_of cancels = some (err status_cancelled)
  result_of (fails status) = if status == status_success then none else some (err status)

  take-nil : (k : ℕ) → take {A = Store T} k [] ≡ []
  take-nil zero = refl
  take-nil (suc k) = refl

  -- A reader that comes after the first `k` stores of an ending sees the status `Started` and gets
  -- `STATUS_PENDING` if a store is still to come, and otherwise sees the final status and gets the
  -- final result: the value, `STATUS_CANCELLED`, or the status of the failure. Only after a failure
  -- with `STATUS_SUCCESS` it takes a value that was never written (`none`).
  pub readers_lem :
      (e : Ending T) (k : ℕ)
      → let seen = object (stores (take k (stores_of e)) new_state) in
        let waits = ltb k (length (stores_of e)) in
        (get_status_raw seen ≡ ok (if waits then started else status_of e))
        × (get_result_raw seen ≡ (if waits then some (err status_pending) else result_of e))
  unfolding stores new_state get_status_raw get_result_raw store_result store_canceled store_error
  readers_lem (completes value) zero = (refl, refl)
  readers_lem (completes value) (suc zero) = (refl, refl)
  readers_lem (completes value) (suc (suc zero)) = (refl, refl)
  readers_lem (completes value) (suc (suc (suc k))) =
      let e : ltb (suc (suc (suc k))) 3 ≡ false = ground arith in
      (rw (take-nil k, e) refl, rw (take-nil k, e) refl)
  readers_lem cancels zero = (refl, refl)
  readers_lem cancels (suc zero) = (refl, refl)
  readers_lem cancels (suc (suc k)) =
      let e : ltb (suc (suc k)) 2 ≡ false = ground arith in
      (rw (take-nil k, e) refl, rw (take-nil k, e) refl)
  readers_lem (fails status) zero = (refl, refl)
  readers_lem (fails status) (suc zero) = (refl, refl)
  readers_lem (fails status) (suc (suc k)) =
      let e : ltb (suc (suc k)) 2 ≡ false = ground arith in
      (rw (take-nil k, e) refl, rw (take-nil k, e) refl)
