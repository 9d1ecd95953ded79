-- ===== src/Status/Laws.antt =====
-- How the conversions of src/iunknown.rs fit together.
use kcom_rs.Prelude.{◌≡◌, refl, not, arith, ◌==◌, if◌then◌else◌}
use kcom_rs.Status.{
  NtStatus, status_pending, status_success, Result, PendingResult, ok, err, is_success, is_error,
  to_result, to_pending_result, into_ntstatus, ready, pending,
}

-- A status that passes through `to_result` and back keeps its value when it is an error, and
-- becomes `STATUS_SUCCESS` otherwise; and it is an error exactly when it is no success.
pub into_ntstatus-to_result :
    (s : NtStatus)
    → (into_ntstatus (to_result s) ≡ (if is_error s then s else status_success))
      × (is_error s ≡ not (is_success s))
unfolding into_ntstatus to_result is_error
into_ntstatus-to_result s = ground arith

abbrev pub then_ready : Result (Unit {0}) → Result (PendingResult (Unit {0}))
then_ready (ok u) = ok (ready u)
then_ready (err e) = err e

-- `to_pending_result` is pending on `STATUS_PENDING`, which `to_result` takes for a success, and on
-- every other status it is `to_result` with a success marked as ready.
pub to_pending_result_lem :
    (s : NtStatus)
    → (to_pending_result s ≡ (if s == status_pending then ok pending else then_ready (to_result s)))
      × (to_result status_pending ≡ ok tt)
unfolding to_pending_result to_result
to_pending_result_lem s = (ground arith, refl)
