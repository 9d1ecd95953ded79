-- ===== src/Unicode/Convert.antt =====
-- Converting a `UNICODE_STRING` to a string (src/unicode.rs).
use kcom_rs.Prelude.{
  ℕ, suc, ◌+◌, ◌-◌, ◌*◌, ◌/◌, ◌%◌, ◌<◌, ◌≤◌, ◌≡◌, ◌≢◌, refl, sym, ap, ◌∙◌, Bool, true, Option, none,
  some, List, [], ◌∷◌, ◌++◌, map, length, arith, Option-cases, Bool-cases, inl, inr, length-append,
  take-append, u16_size, u64_size,
}
use kcom_rs.Utf16.{IsStr, AreUnits, encode_utf16, decode_utf16}
use kcom_rs.Utf16.Laws.{decode-encode, decode-IsEncoding, IsEncoding}
use kcom_rs.Unicode.{
  Result, ok, err, too_long, allocation_failed, UnicodeString, max_units, from_raw_parts,
  unicode_string_as_slice, push_chars, collected, UnicodeStringError, checked_mul, convert,
  unicode_string_to_string, kstr,
}
use mathlib.Core.List.{append-nil, append_assoc}

push_chars-all : (s out : List ℕ) → push_chars (map some s) out ≡ some (out ++ s)
push_chars-all [] out = ap some (sym (append-nil out))
push_chars-all (c ∷ s) out =
    push_chars-all s (out ++ c ∷ []) ∙ ap some (append_assoc out (c ∷ []) s)

push_chars-inv :
    (os : List (Option ℕ)) (out r : List ℕ)
    → push_chars os out ≡ some r
    → (s : List ℕ) × ((os ≡ map some s) × (r ≡ out ++ s))
push_chars-inv [] out r e =
    let same : out ≡ r = ground arith in ([], (refl, sym same ∙ sym (append-nil out)))
push_chars-inv (none ∷ os) out r e = absurd (ground arith)
push_chars-inv (some c ∷ os) out r e =
    let (s, (f, g)) = push_chars-inv os (out ++ c ∷ []) r e in
    (c ∷ s, (ap (◌∷◌ (some c)) f, g ∙ append_assoc out (c ∷ []) s))

checked_lem : (n : ℕ) → n * 3 < u64_size → checked_mul n 3 ≡ some (n * 3)
checked_lem n h = ground (arith, h)

some_lem : (x y : Result (List ℕ)) → some x ≡ some y → x ≡ y
some_lem x y e = ground arith

err_absurd : (x : UnicodeStringError) (s : List ℕ) → err x ≢ ok s
err_absurd x s e = ground arith

collected-inv : (o : Option (List ℕ)) (s : List ℕ) → collected o ≡ ok s → o ≡ some s
collected-inv none s e = absurd (ground arith)
collected-inv (some out) s e = ground arith

-- For a literal of 32,767 units the maximum length wraps around to 0, below the length.
pub kstr_wraps :
    (s : List ℕ)
    → length (encode_utf16 s) ≡ max_units
    → ((kstr s).length_bytes ≡ 65_534) × ((kstr s).maximum_length ≡ 0)
unfolding kstr
kstr_wraps s e = (
  omega (arith, e, length-append (encode_utf16 s) (0 ∷ [])),
  omega (arith, e, length-append (encode_utf16 s) (0 ∷ [])),
)

module _ (reserves : ℕ → Bool) where
  convert-encode :
      (s : List ℕ)
      → IsStr s
      → length (encode_utf16 s) * 3 < u64_size
      → reserves (length (encode_utf16 s) * 3) ≡ true
      → convert reserves (encode_utf16 s) ≡ ok s
  unfolding convert
  convert-encode s h small room =
      rw (convert, checked_lem _ small, room, decode-encode s h, push_chars-all s []) refl

  convert-inv :
      (units s : List ℕ)
      → convert reserves units ≡ ok s
      → push_chars (decode_utf16 units) [] ≡ some s
  unfolding convert
  convert-inv units s e = elim (Option-cases (checked_mul (length units) 3)) [
    | inl p ↦ absurd (err_absurd too_long s (rw (convert, p) at e))
    | inr (n, p) ↦ elim (Bool-cases (reserves n)) [
      | inl q ↦ collected-inv _ s (rw (convert, p, q) at e)
      | inr q ↦ absurd (err_absurd allocation_failed s (rw (convert, p, q) at e))
    ]
  ]

  slice_lem :
      (units rest : List ℕ) (m : ℕ)
      → unicode_string_as_slice (record {
        length_bytes = length units * 2;
        maximum_length = m;
        buffer = some (units ++ rest);
      })
        ≡ some units
  unfolding unicode_string_as_slice from_raw_parts
  slice_lem [] rest m = refl
  slice_lem (u ∷ us) rest m =
      let half : suc (length us) * 2 / 2 ≡ suc (length us) = omega arith in
      rw half (ground (arith, length-append us rest, take-append us rest))

  -- A `UNICODE_STRING` of at most 32,767 units that encode a string is converted to that string, if the
  -- bytes can be reserved.
  pub to_string-slice :
      (u : UnicodeString) (s : List ℕ)
      → unicode_string_as_slice u ≡ some (encode_utf16 s)
      → IsStr s
      → length (encode_utf16 s) ≤ max_units
      → reserves (length (encode_utf16 s) * 3) ≡ true
      → unicode_string_to_string reserves u ≡ some (ok s)
  unfolding unicode_string_to_string
  to_string-slice u s e h small room =
      rw (unicode_string_to_string, e) (ap some (convert-encode s h (omega (arith, small)) room))

  -- A literal of at most 32,766 units that `kstr!` builds is converted back to the literal, and its
  -- lengths are those of the units without and with the NUL.
  pub to_string-kstr :
      (s : List ℕ)
      → IsStr s
      → length (encode_utf16 s) + 1 ≤ max_units
      → reserves (length (encode_utf16 s) * 3) ≡ true
      → (unicode_string_to_string reserves (kstr s) ≡ some (ok s))
        × (((kstr s).length_bytes ≡ length (encode_utf16 s) * 2)
            × ((kstr s).maximum_length ≡ length (encode_utf16 s) * 2 + 2))
  unfolding kstr
  to_string-kstr s h small room = (
    to_string-slice _ s (kstr_slice (encode_utf16 s) small) h (omega (arith, small)) room,
    (
      omega (arith, small, length-append (encode_utf16 s) (0 ∷ [])),
      omega (arith, small, length-append (encode_utf16 s) (0 ∷ [])),
    ),
  )
    where
      kstr_slice :
          (units : List ℕ)
          → length units + 1 ≤ max_units
          → unicode_string_as_slice (record {
            length_bytes = ((length (units ++ 0 ∷ []) - 1) * 2) % u16_size;
            maximum_length = (length (units ++ 0 ∷ []) * 2) % u16_size;
            buffer = some (units ++ 0 ∷ []);
          })
            ≡ some units
      kstr_slice units small =
          let even : ((length (units ++ 0 ∷ []) - 1) * 2) % u16_size ≡ length units * 2 =
            omega (arith, small, length-append units (0 ∷ [])) in
          rw even (slice_lem units (0 ∷ []) ((length (units ++ 0 ∷ []) * 2) % u16_size))

  -- If a `UNICODE_STRING` of units is converted, the result is a string whose encoding is the units,
  -- and its bytes are no more than were reserved, so no character is pushed into a full buffer.
  pub to_string-IsEncoding :
      (u : UnicodeString) (units s : List ℕ)
      → unicode_string_as_slice u ≡ some units
      → AreUnits units
      → unicode_string_to_string reserves u ≡ some (ok s)
      → IsEncoding units s
  unfolding unicode_string_to_string
  to_string-IsEncoding u units s e h f =
      let (t, (p, q)) =
        push_chars-inv _ [] s
          (convert-inv units s (some_lem _ _ (rw (unicode_string_to_string, e) at f))) in
      rw q (decode-IsEncoding units t h p)
