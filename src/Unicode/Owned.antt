-- ===== src/Unicode/Owned.antt =====
-- `OwnedUnicodeString` (src/unicode.rs).
pub mod Laws
use kcom_rs.Prelude.{
  ℕ, ◌+◌, ◌*◌, ◌-◌, ◌/◌, ◌%◌, ◌^◌, ◌≡◌, Bool, Option, none, some, List, ltb, leb, if◌then◌else◌,
  length, u16_size,
}
use kcom_rs.Utf16.{encode_utf16}
use kcom_rs.Unicode.{
  Result, ok, err, too_long, allocation_failed, UnicodeString, max_units, from_raw_parts,
}
use kcom_rs.Unicode.Buffer.{write, write_units}

-- The allocator: memory of the given number of bytes, seen as `u16` cells with any contents.
pub record Alloc : Type 0 where
  pub alloc : (bytes : ℕ) → Option (List ℕ)
  pub sized : (bytes : ℕ) (cells : List ℕ) → alloc bytes ≡ some cells → bytes ≡ length cells * 2

pub record Owned : Type 0 where
  pub inner : UnicodeString
  pub buffer_len : ℕ

-- The size of `Layout::array::<u16>(n)`, which is an error above `isize::MAX`.
abbrev pub array_layout : ℕ → Option ℕ
array_layout n = if ltb (n * 2) (2 ^ 63) then some (n * 2) else none

abbrev pub owned : ℕ → List ℕ → Owned
owned len cells = record {
  inner = record {
    length_bytes = (len * 2) % u16_size;
    maximum_length = ((len + 1) * 2) % u16_size;
    buffer = some cells;
  };
  buffer_len = len + 1;
}

-- The two writing steps, into memory from the allocator.
abbrev pub fill : List ℕ → List ℕ → Option Owned
fill cells units = elim (write_units cells 0 units) [
  | none ↦ none
  | some filled ↦ elim (write filled (length units) 0) [
    | none ↦ none
    | some ended ↦ some (owned (length units) ended)
  ]
]

abbrev pub filled_in : Option (List ℕ) → List ℕ → Option (Result Owned)
filled_in none units = some (err allocation_failed)
filled_in (some cells) units = elim (fill cells units) [ none ↦ none | some o ↦ some (ok o) ]

unfoldable pub new_in : Alloc → List ℕ → Option (Result Owned)
new_in a value =
    let len = length (encode_utf16 value) in
    if ltb max_units (len + 1) then some (err too_long) else elim (array_layout (len + 1)) [
      | none ↦ some (err too_long)
      | some bytes ↦ filled_in (a.alloc bytes) (encode_utf16 value)
    ]

unfoldable pub as_unicode : Owned → UnicodeString
as_unicode o = o.inner

abbrev pub cells_of : Option (List ℕ) → List ℕ
cells_of none = List.[]
cells_of (some cells) = cells

unfoldable pub as_utf16 : Owned → Option (List ℕ)
unfolding from_raw_parts
as_utf16 o = from_raw_parts (cells_of o.inner.buffer) (o.inner.length_bytes / 2)

-- `drop`: the bytes of the layout that `dealloc` is called with, if it is called.
unfoldable pub drop : Owned → Option ℕ
drop o = elim o.inner.buffer [ none ↦ none | some cells ↦ array_layout o.buffer_len ]
