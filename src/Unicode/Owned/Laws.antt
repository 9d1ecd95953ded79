-- ===== src/Unicode/Owned/Laws.antt =====
-- What `OwnedUnicodeString` promises (src/unicode.rs).
use kcom_rs.Prelude.{
  ℕ, suc, ◌+◌, ◌*◌, ◌/◌, ◌%◌, ◌≡◌, ◌≤◌, ◌<◌, refl, ◌∙◌, none, some, List, [], ◌∷◌, ◌++◌, ltb,
  length, take, set, u16_size, arith, Option-cases, Bool-cases, ◌⊎◌, inl, inr, length-set,
}
use kcom_rs.Utf16.{encode_utf16}
use kcom_rs.Unicode.{
  ok, err, too_long, allocation_failed, max_units, from_raw_parts, unicode_string_as_slice,
}
use kcom_rs.Unicode.Buffer.{write_units, write_units_lem, write_lem, take-set, take-set_same}
use kcom_rs.Unicode.Owned.{
  Alloc, Owned, array_layout, owned, fill, filled_in, new_in, as_unicode, cells_of, as_utf16, drop,
}

-- What `new_in` gives for the units: a buffer that holds them and a NUL, which its lengths say without
-- wrapping around, and which is returned to the allocator with the size that it was allocated with.
pub record Holds (units : List ℕ) (bytes : ℕ) (o : Owned) : Type 0 where
  pub slice : unicode_string_as_slice (as_unicode o) ≡ some units
  pub reads : as_utf16 o ≡ some units
  pub terminated : take (length units + 1) (cells_of (as_unicode o).buffer) ≡ units ++ 0 ∷ []
  pub length_lem : (as_unicode o).length_bytes ≡ length units * 2
  pub maximum_lem : (as_unicode o).maximum_length ≡ (length units + 1) * 2
  pub dropped : drop o ≡ some bytes

ended-slice :
    (left units : List ℕ)
    → length units + 1 ≤ max_units
    → length units + 1 ≡ length left
    → take (length units) left ≡ units
    → unicode_string_as_slice (owned (length units) (set left (length units) 0)).inner ≡ some units
unfolding unicode_string_as_slice from_raw_parts
ended-slice left [] small size f = refl
ended-slice left (u ∷ us) small size f =
    let n = length (u ∷ us) in
    let half : n * 2 % u16_size / 2 ≡ n = omega (arith, small) in
    rw half (ground (arith, size, length-set left n 0, take-set_same left n 0 ∙ f))

ended-Holds :
    (left units : List ℕ)
    → length units + 1 ≤ max_units
    → length units + 1 ≡ length left
    → take (length units) left ≡ units
    → Holds units ((length units + 1) * 2) (owned (length units) (set left (length units) 0))
unfolding as_utf16 as_unicode drop from_raw_parts
ended-Holds left units small size f = record {
  slice = ended-slice left units small size f;
  reads =
      let half : length units * 2 % u16_size / 2 ≡ length units = omega (arith, small) in
      rw half (
        ground
          (arith, size, length-set left (length units) 0, take-set_same left (length units) 0 ∙ f));
  terminated =
      let one : length units + 1 ≡ suc (length units) = omega arith in
      rw (one, take-set left (length units) 0 (omega (arith, size)), f) refl;
  length_lem = omega (arith, small);
  maximum_lem = omega (arith, small);
  dropped = ground (arith, small);
}

fill-Holds :
    (cells units : List ℕ)
    → length units + 1 ≤ max_units
    → (length units + 1) * 2 ≡ length cells * 2
    → (o : Owned) × ((fill cells units ≡ some o) × Holds units ((length units + 1) * 2) o)
fill-Holds cells units small size =
    let (left, (e, (f, g))) =
      write_units_lem units cells 0 (length units) (omega arith) (omega (arith, size)) in
    (
      owned (length units) (set left (length units) 0),
      (
        filled left e (omega (arith, size, g)),
        ended-Holds left units small (omega (arith, size, g)) f,
      ),
    )
  where
    filled :
        (left : List ℕ)
        → write_units cells 0 units ≡ some left
        → length units < length left
        → fill cells units ≡ some (owned (length units) (set left (length units) 0))
    filled left e h = rw (fill, e, write_lem left (length units) 0 h) refl

filled_in_lem :
    (cells units : List ℕ) (o : Owned)
    → fill cells units ≡ some o
    → filled_in (some cells) units ≡ some (ok o)
filled_in_lem cells units o e = rw (filled_in, e) refl

-- `new_in` of a string of `len` units fails with `TooLong` just if `len + 1` is over 32,767, and else
-- with `AllocationFailed` just if the allocator gives no memory; else it gives a string that holds the
-- units. It never writes outside its memory.
pub new_in_lem :
    (a : Alloc) (value : List ℕ)
    → ((max_units < length (encode_utf16 value) + 1) × (new_in a value ≡ some (err too_long)))
      ⊎ ((length (encode_utf16 value) + 1 ≤ max_units)
          × (((a.alloc ((length (encode_utf16 value) + 1) * 2) ≡ none)
                × (new_in a value ≡ some (err allocation_failed)))
              ⊎ ((o : Owned) × ((new_in a value ≡ some (ok o))
                    × Holds (encode_utf16 value) ((length (encode_utf16 value) + 1) * 2) o))))
unfolding new_in
new_in_lem a value = elim (Bool-cases (ltb max_units (length (encode_utf16 value) + 1))) [
  | inl long ↦ inl (ground (arith, long), rw long refl)
  | inr fits ↦
      let small : length (encode_utf16 value) + 1 ≤ max_units = ground (arith, fits) in
      let layout : array_layout (length (encode_utf16 value) + 1)
          ≡ some ((length (encode_utf16 value) + 1) * 2) =
        ground (arith, small) in
      inr (
        small,
        elim (Option-cases (a.alloc ((length (encode_utf16 value) + 1) * 2))) [
          | inl failed ↦ inl (failed, rw (fits, layout, failed) refl)
          | inr (cells, given) ↦
              let (o, (e, h)) =
                fill-Holds cells (encode_utf16 value) small (a.sized _ cells given) in
              inr (
                o,
                (rw (fits, layout, given, filled_in_lem cells (encode_utf16 value) o e) refl, h),
              )
        ],
      )
]
