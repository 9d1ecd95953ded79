-- ===== src/AsyncCom.antt =====
-- src/async_com.rs: `AsyncOperationTask`, an operation whose status and result are read while its
-- task runs.
pub mod Object
pub mod Readers
pub mod Life
use kcom_rs.Prelude.{ℕ, ◌≡◌, Bool, Option, none, some, List, [], ◌∷◌, ◌==◌, if◌then◌else◌}
use kcom_rs.Status.{
  NtStatus, Result, ok, err, is_error, status_success, status_pending, status_unsuccessful,
  status_cancelled,
}

pub data AsyncStatus : Type 0 where
  started completed canceled error : AsyncStatus

unfoldable pub as_raw : AsyncStatus → ℕ
as_raw started = 0
as_raw completed = 1
as_raw canceled = 2
as_raw error = 3

unfoldable pub from_raw : ℕ → AsyncStatus
from_raw value =
    if value == 0
    then started
    else if value == 1
    then completed
    else if value == 2
    then canceled
    else error

-- `result` is a `MaybeUninit`: `none` until it is written.
pub record Operation (T : Type 0) : Type 0 where
  pub status : ℕ
  pub error : NtStatus
  pub result : Option T

-- One store to a field. Other threads can read the operation between two stores.
pub data Store (T : Type 0) : Type 0 where
  set_result : T → Store T
  set_error : NtStatus → Store T
  set_status : AsyncStatus → Store T

-- What a raw pointer to the operation leads to.
pub data Pointer (T : Type 0) : Type 0 where
  null no_vtable : Pointer T
  object : Operation T → Pointer T

-- What `shim_get_result` ends in: it may write the value, and returns a status. `undefined` is a
-- read of a result that was never written.
pub data Reading (T : Type 0) : Type 0 where
  returned : Option T → NtStatus → Reading T
  undefined : Reading T

-- The caller's `status` variable starts as `Started`.
reported : NtStatus × Option AsyncStatus → Result AsyncStatus
unfolding is_error
reported (result, some status) = if is_error result then err result else ok status
reported (result, none) = if is_error result then err result else ok started

module _ {T : Type 0} where
  unfoldable pub new_state : Operation T
  unfolding as_raw
  new_state = record { status = as_raw started; error = status_unsuccessful; result = none }

  unfoldable pub store : Store T → Operation T → Operation T
  unfolding as_raw
  store (set_result value) o = record o { result = some value }
  store (set_error status) o = record o { error = status }
  store (set_status status) o = record o { status = as_raw status }

  unfoldable pub stores : List (Store T) → Operation T → Operation T
  unfolding store
  stores [] o = o
  stores (s ∷ ss) o = stores ss (store s o)

  unfoldable pub store_result : T → List (Store T)
  store_result value = set_result value ∷ set_error status_success ∷ set_status completed ∷ []

  unfoldable pub store_error : NtStatus → List (Store T)
  store_error status = set_error status ∷ set_status error ∷ []

  unfoldable pub store_canceled : List (Store T)
  store_canceled = set_error status_cancelled ∷ set_status canceled ∷ []

  unfoldable pub load_status : Operation T → AsyncStatus
  unfolding from_raw
  load_status o = from_raw o.status

  read_result : Operation T → Reading T
  read_result o = elim o.result [
    | some value ↦ returned (some value) status_success
    | none ↦ undefined
  ]

  result_in : AsyncStatus → Operation T → Reading T
  unfolding read_result
  result_in completed o = read_result o
  result_in started o = returned none status_pending
  result_in canceled o = returned none o.error
  result_in error o = returned none o.error

  -- `none` as the operation is a null `this`.
  unfoldable pub shim_get_result : Option (Operation T) → (out_is_null : Bool) → Reading T
  unfolding result_in load_status
  shim_get_result none out_is_null = returned none status_unsuccessful
  shim_get_result (some o) out_is_null =
      if out_is_null then returned none status_unsuccessful else result_in (load_status o) o

  -- The status that is returned, with the status word that was written.
  unfoldable pub shim_get_status :
      Option (Operation T) → (out_is_null : Bool) → NtStatus × Option AsyncStatus
  unfolding load_status
  shim_get_status none out_is_null = (status_unsuccessful, none)
  shim_get_status (some o) out_is_null =
      if out_is_null then (status_unsuccessful, none) else (status_success, some (load_status o))

  unfoldable pub get_status_raw : Pointer T → Result AsyncStatus
  unfolding shim_get_status reported
  get_status_raw null = err status_unsuccessful
  get_status_raw no_vtable = err status_unsuccessful
  get_status_raw (object o) = reported (shim_get_status (some o) Bool.false)

  -- The `assume_init` in `get_result_raw`: `none` is the use of a value that was not written.
  assume_init : Reading T → Option (Result T)
  assume_init undefined = none
  assume_init (returned (some value) result) =
      if result == status_success then some (ok value) else some (err result)
  assume_init (returned none result) = if result == status_success then none else some (err result)

  unfoldable pub get_result_raw : Pointer T → Option (Result T)
  unfolding shim_get_result assume_init
  get_result_raw null = some (err status_unsuccessful)
  get_result_raw no_vtable = some (err status_unsuccessful)
  get_result_raw (object o) = assume_init (shim_get_result (some o) Bool.false)
