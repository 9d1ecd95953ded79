-- ===== src/Status.antt =====
-- src/iunknown.rs: `NTSTATUS`, `Status` and the conversions between statuses and results.
pub mod Laws
use kcom_rs.Prelude.{ℕ, ◌^◌, ◌≡◌, Bool, ltb, leb, ◌==◌, if◌then◌else◌}

-- `NTSTATUS` is an `i32`; it is kept as its 32-bit pattern, which is how the source writes its
-- constants (`0xC000_0001u32 as i32`). The pattern is negative when its top bit is set.
abbrev pub NtStatus : Type 0
NtStatus = ℕ

abbrev pub status_success : NtStatus
status_success = 0

abbrev pub status_pending : NtStatus
status_pending = 0x0000_0103

abbrev pub status_unsuccessful : NtStatus
status_unsuccessful = 0xC000_0001

abbrev pub status_invalid_parameter : NtStatus
status_invalid_parameter = 0xC000_000D

abbrev pub status_not_supported : NtStatus
status_not_supported = 0xC000_00BB

abbrev pub status_cancelled : NtStatus
status_cancelled = 0xC000_0120

abbrev pub status_nointerface : NtStatus
status_nointerface = 0xC000_02B9

abbrev pub status_insufficient_resources : NtStatus
status_insufficient_resources = 0xC000_009A

pub data Result {ℓ} (A : Type ℓ) : Type ℓ where
  ok : A → Result A
  err : NtStatus → Result A

unfoldable pub is_success : NtStatus → Bool
is_success s = ltb s (2 ^ 31)

unfoldable pub is_error : NtStatus → Bool
is_error s = leb (2 ^ 31) s

unfoldable pub to_result : NtStatus → Result (Unit {0})
unfolding is_success
to_result s = if is_success s then ok tt else err s

pub data PendingResult {ℓ} (A : Type ℓ) : Type ℓ where
  ready : A → PendingResult A
  pending : PendingResult A

unfoldable pub to_pending_result : NtStatus → Result (PendingResult (Unit {0}))
unfolding is_success
to_pending_result s =
    if s == status_pending then ok pending else if is_success s then ok (ready tt) else err s

-- `IntoNtStatus for Result<T, E>`, with the error already converted.
unfoldable pub into_ntstatus {ℓ} : {A : Type ℓ} → Result A → NtStatus
into_ntstatus (ok a) = status_success
into_ntstatus (err e) = e
