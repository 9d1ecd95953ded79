-- ===== src/Unicode/Local/Calls.antt =====
-- Whole uses of a `LocalUnicodeString` (src/unicode.rs): `from_str`, and sequences of calls.
use kcom_rs.Prelude.{
  ℕ, ◌+◌, ◌≡◌, ◌<◌, ◌≤◌, ◌⊎◌, refl, Option, some, List, [], ◌∷◌, ◌++◌, take, ltb, length, arith,
  Bool-cases, inl, inr,
}
use kcom_rs.Utf16.{encode_utf16}
use kcom_rs.Unicode.{ok, err, too_long, unicode_string_as_slice}
use kcom_rs.Unicode.Local.{Local, new, from_str, as_unicode_ref, as_utf16}
use kcom_rs.Unicode.Local.Refines.{
  cap, Shows, new-Shows, try_push_str-Shows, run, after, results, run-Shows, reads_lem,
}

-- After any sequence of calls of `clear` and `try_push_str` on a new string, no call has written
-- outside the buffer; each `try_push_str` has returned what the bounded string's push returns, so
-- `TooLong` just if the string with the new part and the NUL is longer than the capacity; and the
-- units, the `UNICODE_STRING` and, if the buffer has any cell, the NUL after the units are those of
-- the bounded string after the same calls.
pub run_lem :
    (n : ℕ) (calls : List (Option (List ℕ)))
    → (l : Local) × (run (new n) calls ≡ some (l, results n [] calls))
      × (as_utf16 l ≡ some (encode_utf16 (after n [] calls)))
      × (unicode_string_as_slice (as_unicode_ref l) ≡ some (encode_utf16 (after n [] calls)))
      × ((n ≡ 0) ⊎ (take (l.len + 1) l.buffer ≡ encode_utf16 (after n [] calls) ++ 0 ∷ []))
run_lem n calls =
    let (l, (e, h)) = run-Shows n [] calls (new n) (new-Shows n) in
    let r = reads_lem n (after n [] calls) l h in (l, e, r.0, r.1.0, h.terminated)

-- `from_str` fails with `TooLong` just if the units and the NUL are more than the capacity, and else
-- gives a buffer that shows the string.
pub from_str_lem :
    (n : ℕ) (value : List ℕ)
    → ((cap n < length (encode_utf16 value) + 1) × (from_str n value ≡ some (err too_long)))
      ⊎ ((length (encode_utf16 value) + 1 ≤ cap n)
          × ((l : Local) × ((from_str n value ≡ some (ok l)) × Shows n value l)))
unfolding from_str
from_str_lem n value = elim (Bool-cases (ltb (cap n) (length (encode_utf16 value) + 1))) [
  | inl long ↦
      let (l, (e, h)) = try_push_str-Shows n [] value (new n) (new-Shows n) in
      inl (ground (arith, long), rw (from_str, e, long) refl)
  | inr fits ↦
      let (l, (e, h)) = try_push_str-Shows n [] value (new n) (new-Shows n) in
      inr (ground (arith, fits), (l, (rw (from_str, e, fits) refl, rw fits at h)))
]
