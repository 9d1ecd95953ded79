-- ===== src/Unicode/Local.antt =====
-- `LocalUnicodeString` and `UnicodeStringRef` (src/unicode.rs). `N` is the length of the buffer.
pub mod Refines
pub mod Calls
use kcom_rs.Prelude.{
  ℕ, ◌+◌, ◌*◌, ◌%◌, Bool, true, false, ◌==◌, Option, none, some, List, ltb, if◌then◌else◌, length,
  set, replicate, min, u16_size,
}
use kcom_rs.Utf16.{encode_utf16}
use kcom_rs.Unicode.{Result, ok, err, too_long, UnicodeString, max_units, from_raw_parts}
use kcom_rs.Unicode.Buffer.{write, write_units}

pub record Local : Type 0 where
  pub buffer : List ℕ
  pub len : ℕ

abbrev pub new : ℕ → Local
new n = record { buffer = replicate n 0; len = 0 }

unfoldable pub clear : Local → Local
clear l =
    if length l.buffer == 0
    then record l { len = 0 }
    else record l { len = 0; buffer = set l.buffer 0 0 }

-- The terminating write of `try_push_str`, and the new length.
abbrev pub terminate : List ℕ → ℕ → Option (Local × Result (Unit {0}))
terminate cells len = elim (if ltb len (length cells) then write cells len 0 else some cells) [
  | none ↦ none
  | some ended ↦ some (record { buffer = ended; len = len }, ok tt)
]

unfoldable pub try_push_str : Local → List ℕ → Option (Local × Result (Unit {0}))
try_push_str l value =
    let cap_units = min (length l.buffer) max_units in
    let value_len = length (encode_utf16 value) in
    if ltb cap_units (l.len + value_len + 1)
    then some (l, err too_long)
    else elim (write_units l.buffer l.len (encode_utf16 value)) [
      | none ↦ none
      | some filled ↦ terminate filled (l.len + value_len)
    ]

abbrev built : Local × Result (Unit {0}) → Result Local
built (l, ok u) = ok l
built (l, err e) = err e

unfoldable pub from_str : ℕ → List ℕ → Option (Result Local)
unfolding try_push_str
from_str n value = elim (try_push_str (new n) value) [ none ↦ none | some r ↦ some (built r) ]

unfoldable pub is_empty : Local → Bool
is_empty l = l.len == 0

unfoldable pub as_unicode_ref : Local → UnicodeString
as_unicode_ref l = record {
  length_bytes = (l.len * 2) % u16_size;
  maximum_length = (min (length l.buffer) max_units * 2) % u16_size;
  buffer = some l.buffer;
}

-- `&self.buffer[..self.len]`
unfoldable pub as_utf16 : Local → Option (List ℕ)
unfolding from_raw_parts
as_utf16 l = from_raw_parts l.buffer l.len

abbrev written : Local × Result (Unit {0}) → Local × Bool
written (l, ok u) = (l, true)
written (l, err e) = (l, false)

-- `fmt::Write::write_str`: `false` is `fmt::Error`.
unfoldable pub write_str : Local → List ℕ → Option (Local × Bool)
unfolding try_push_str
write_str l s = elim (try_push_str l s) [ none ↦ none | some r ↦ some (written r) ]
