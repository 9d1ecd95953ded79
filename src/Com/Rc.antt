-- ===== src/Com/Rc.antt =====
-- src/smart_ptr.rs: `ComRc`, an owned reference to an object through one of its pointers.
pub mod Handles
pub mod Uses
pub mod Balance
use kcom_rs.Prelude.{ℕ, ◌≡◌, Bool, false, Option, none, some, List, if◌then◌else◌}
use kcom_rs.Status.{NtStatus, Result, ok, err, is_error, status_nointerface}
use kcom_rs.RefCount.{RefCounter}
use kcom_rs.Com.{Guid, Pointer, null, World, Others, Acts}
use kcom_rs.Com.Run.{Run, ◌>>=◌, pure}
use kcom_rs.Com.Methods.{add_ref, release, query_interface}
use kcom_rs.Com.Interfaces.{is_null}

pub record ComRc : Type 0 where
  pub ptr : Pointer

unfoldable pub from_raw : Pointer → Option ComRc
unfolding is_null
from_raw ptr = if is_null ptr then none else some (record { ptr = ptr })

unfoldable pub from_raw_or_status : Pointer → Result ComRc
unfolding is_null
from_raw_or_status ptr = if is_null ptr then err status_nointerface else ok (record { ptr = ptr })

unfoldable pub into_raw : ComRc → Pointer
into_raw rc = rc.ptr

-- The variable that `query_interface` passes on starts as null.
out_of : Option Pointer → Pointer
out_of none = null
out_of (some ptr) = ptr

unfoldable pub queried : NtStatus × Option Pointer → Result ComRc
unfolding is_error from_raw_or_status out_of
queried (status, out) = if is_error status then err status else from_raw_or_status (out_of out)

module _ {T O : Type 0} (counter : RefCounter) (others : Others O) (destructor : Acts)
    (custom : T → Pointer → Guid → Option Pointer) where
  unfoldable pub from_raw_addref : Pointer → Run (World T O) (Option ComRc)
  unfolding is_null from_raw
  from_raw_addref ptr =
      if is_null ptr
      then pure none
      else (add_ref counter others destructor custom ptr >>= λ _. pure (from_raw ptr))

  unfoldable pub clone : ComRc → Run (World T O) ComRc
  clone rc = add_ref counter others destructor custom rc.ptr >>= λ _. pure (record { ptr = rc.ptr })

  unfoldable pub drop : ComRc → Run (World T O) (Unit {0})
  drop rc = release counter others destructor custom rc.ptr >>= λ _. pure tt

  unfoldable pub query : ComRc → Guid → Run (World T O) (Result ComRc)
  unfolding queried
  query rc iid = query_interface counter others destructor custom rc.ptr (some iid) false >>= λ r.
      pure (queried r)
