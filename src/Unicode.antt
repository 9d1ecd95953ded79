-- ===== src/Unicode.antt =====
-- src/unicode.rs: `UNICODE_STRING` and its conversions. The children have the owned and the local
-- strings.
--
-- `none` outside a result is what the code must not do: read or write outside a buffer.
pub mod Buffer
pub mod Convert
pub mod Owned
pub mod Local
use kcom_rs.Prelude.{
  ℕ, ◌+◌, ◌-◌, ◌*◌, ◌/◌, ◌%◌, ◌^◌, Bool, true, false, ◌||◌, ◌==◌, Option, none, some, List, [], ◌∷◌,
  ◌++◌, ltb, leb, if◌then◌else◌, length, take, set, u16_size, u64_size,
}
use kcom_rs.Utf16.{encode_utf16, decode_utf16}

pub data UnicodeStringError : Type 0 where
  too_long allocation_failed invalid_utf16 : UnicodeStringError

pub data Result {ℓ} (A : Type ℓ) : Type ℓ where
  ok : A → Result A
  err : UnicodeStringError → Result A

-- `UNICODE_STRING`. The buffer is null, or the cells that its pointer points at.
pub record UnicodeString : Type 0 where
  pub length_bytes : ℕ  -- Length, a u16
  pub maximum_length : ℕ  -- MaximumLength, a u16
  pub buffer : Option (List ℕ)

-- `(u16::MAX as usize) / 2`
abbrev pub max_units : ℕ
max_units = (u16_size - 1) / 2

-- `slice::from_raw_parts`
unfoldable pub from_raw_parts : List ℕ → ℕ → Option (List ℕ)
from_raw_parts cells n = if leb n (length cells) then some (take n cells) else none

unfoldable pub unicode_string_as_slice : UnicodeString → Option (List ℕ)
unfolding from_raw_parts
unicode_string_as_slice u = elim u.buffer [
  | none ↦ some []
  | some cells ↦ if u.length_bytes == 0 then some [] else from_raw_parts cells (u.length_bytes / 2)
]

-- The loop that pushes the decoded characters: `none` is an error of the decoder.
abbrev pub push_chars : List (Option ℕ) → List ℕ → Option (List ℕ)
push_chars [] out = some out
push_chars (none ∷ os) out = none
push_chars (some c ∷ os) out = push_chars os (out ++ c ∷ [])

-- `usize::checked_mul`
abbrev pub checked_mul : ℕ → ℕ → Option ℕ
checked_mul a b = if ltb (a * b) u64_size then some (a * b) else none

abbrev pub collected : Option (List ℕ) → Result (List ℕ)
collected none = err invalid_utf16
collected (some out) = ok out

-- What follows the reading of the slice. `reserves n` is whether `String::try_reserve(n)` succeeds.
unfoldable pub convert : (reserves : ℕ → Bool) → List ℕ → Result (List ℕ)
convert reserves units = elim (checked_mul (length units) 3) [
  | none ↦ err too_long
  | some reserve ↦
      if reserves reserve
      then collected (push_chars (decode_utf16 units) [])
      else err allocation_failed
]

unfoldable pub unicode_string_to_string :
    (reserves : ℕ → Bool) → UnicodeString → Option (Result (List ℕ))
unfolding convert unicode_string_as_slice
unicode_string_to_string reserves u = elim (unicode_string_as_slice u) [
  | none ↦ none
  | some units ↦ some (convert reserves units)
]

-- `kstr!`: the literal's units and a trailing NUL.
unfoldable pub kstr : List ℕ → UnicodeString
kstr lit =
    let buf = encode_utf16 lit ++ 0 ∷ [] in
    record {
      length_bytes = ((length buf - 1) * 2) % u16_size;
      maximum_length = (length buf * 2) % u16_size;
      buffer = some buf;
    }
