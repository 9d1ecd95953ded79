-- ===== src/Tests/Text.antt =====
-- Examples for src/unicode.rs: the string of the two characters U+0068 and U+1F600, which takes three
-- units.
use kcom_rs.Prelude.{
  ◌+◌, ◌++◌, take, ℕ, ◌/◌, ◌%◌, ◌==◌, if◌then◌else◌, Bool-cases, length-replicate, ◌*◌, ◌≤◌, ◌<◌,
  ◌≡◌, ◌⊎◌, refl, ap, Bool, true, Option, none, some, List, [], ◌∷◌, length, replicate, arith, inl,
  inr,
}
use kcom_rs.Utf16.{encode_utf16, IsStr}
use kcom_rs.Utf16.Laws.{IsEncoding}
use kcom_rs.Unicode.{
  ok, err, too_long, allocation_failed, UnicodeString, max_units, unicode_string_as_slice,
  unicode_string_to_string,
}
use kcom_rs.Unicode.Convert.{to_string-slice, to_string-IsEncoding}
use kcom_rs.Unicode.Owned.{Alloc, Owned, new_in}
use kcom_rs.Unicode.Owned.Laws.{Holds, new_in_lem}
use kcom_rs.Unicode.Local.{Local, new, as_unicode_ref, as_utf16}
use kcom_rs.Unicode.Local.Refines.{run}
use kcom_rs.Unicode.Local.Calls.{run_lem}

abbrev text : List ℕ
text = 0x68 ∷ 0x1_F600 ∷ []

text-IsStr : IsStr text
text-IsStr = (inl (omega arith), (inr (omega arith, omega arith), tt))

abbrev always : ℕ → Bool
always n = true

abbrev shown : UnicodeString
shown = record {
  length_bytes = 6;
  maximum_length = 8;
  buffer = some (0x68 ∷ 0xD83D ∷ 0xDE00 ∷ 0 ∷ []);
}

shown-slice : unicode_string_as_slice shown ≡ some (0x68 ∷ 0xD83D ∷ 0xDE00 ∷ [])
unfolding unicode_string_as_slice
shown-slice = refl

to_string-slice_example : unicode_string_to_string always shown ≡ some (ok text)
to_string-slice_example =
    to_string-slice always shown text shown-slice text-IsStr (omega arith) refl

to_string-IsEncoding_example : IsEncoding (0x68 ∷ 0xD83D ∷ 0xDE00 ∷ []) text
to_string-IsEncoding_example =
    to_string-IsEncoding always shown (0x68 ∷ 0xD83D ∷ 0xDE00 ∷ []) text shown-slice
      (omega arith, (omega arith, (omega arith, tt))) to_string-slice_example

abbrev gives : ℕ → Option (List ℕ)
gives bytes = if bytes % 2 == 0 then some (replicate (bytes / 2) 0) else none

gives-sized : (bytes : ℕ) (cells : List ℕ) → gives bytes ≡ some cells → bytes ≡ length cells * 2
gives-sized bytes cells e = elim (Bool-cases (bytes % 2 == 0)) [
  | inl even ↦
      let given : replicate (bytes / 2) 0 ≡ cells = ground (arith, rw even at e) in
      let whole : bytes % 2 ≡ 0 = ground (arith, even) in
      omega (arith, ap length given, length-replicate {A = ℕ} (bytes / 2) 0, whole)
  | inr odd ↦ absurd (ground (arith, rw odd at e))
]

abbrev plenty : Alloc
plenty = record { alloc = gives; sized = gives-sized }

new_in_lem_example :
    ((max_units < 4) × (new_in plenty text ≡ some (err too_long)))
    ⊎ ((4 ≤ max_units)
        × (((plenty.alloc 8 ≡ none) × (new_in plenty text ≡ some (err allocation_failed)))
            ⊎ ((o : Owned) × ((new_in plenty text ≡ some (ok o))
                  × Holds (0x68 ∷ 0xD83D ∷ 0xDE00 ∷ []) 8 o))))
new_in_lem_example = new_in_lem plenty text

abbrev calls : List (Option (List ℕ))
calls = some text ∷ none ∷ some text ∷ some text ∷ []

-- The last push does not fit.
run_lem_example :
    (l : Local) × (run (new 5) calls ≡ some (l, ok tt ∷ ok tt ∷ err too_long ∷ []))
    × (as_utf16 l ≡ some (encode_utf16 text))
    × (unicode_string_as_slice (as_unicode_ref l) ≡ some (encode_utf16 text))
    × (◌≡◌ {A = ℕ} 5 0 ⊎ (take (l.len + 1) l.buffer ≡ encode_utf16 text ++ 0 ∷ []))
run_lem_example = run_lem 5 calls
