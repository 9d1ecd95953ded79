-- ===== src/Utf16.antt =====
-- Text and UTF-16 as the language's library has them (`char`, `str::encode_utf16`,
-- `char::decode_utf16`), for src/unicode.rs. A string is the list of its characters.
pub mod Laws
use kcom_rs.Prelude.{
  ℕ, ◌+◌, ◌-◌, ◌*◌, ◌/◌, ◌%◌, ◌<◌, Bool, true, false, ◌&&◌, Option, none, some, List, [], ◌∷◌, ◌++◌,
  ltb, leb, if◌then◌else◌, ◌⊎◌,
}

-- A `char`: not a surrogate, and below 0x11_0000.
abbrev pub IsChar : ℕ → Type 0
IsChar c = (c < 0xD800) ⊎ ((0xDFFF < c) × (c < 0x11_0000))

abbrev pub IsStr : List ℕ → Type 0
IsStr [] = Unit
IsStr (c ∷ s) = IsChar c × IsStr s

-- `char::encode_utf16`
abbrev pub encode_char : ℕ → List ℕ
encode_char c =
    if ltb c 0x1_0000
    then c ∷ []
    else (0xD800 + (c - 0x1_0000) / 0x400) ∷ (0xDC00 + (c - 0x1_0000) % 0x400) ∷ []

-- `str::encode_utf16`
abbrev pub encode_utf16 : List ℕ → List ℕ
encode_utf16 [] = []
encode_utf16 (c ∷ s) = encode_char c ++ encode_utf16 s

-- `char::len_utf8`
abbrev pub len_utf8 : ℕ → ℕ
len_utf8 c = if ltb c 0x80 then 1 else if ltb c 0x800 then 2 else if ltb c 0x1_0000 then 3 else 4

-- `str::len`: the bytes of a string in memory.
abbrev pub utf8_size : List ℕ → ℕ
utf8_size [] = 0
utf8_size (c ∷ s) = len_utf8 c + utf8_size s

abbrev pub is_surrogate : ℕ → Bool
is_surrogate u = leb 0xD800 u && leb u 0xDFFF

abbrev pub is_low : ℕ → Bool
is_low u = leb 0xDC00 u && leb u 0xDFFF

abbrev pub join : ℕ → ℕ → ℕ
join hi lo = 0x1_0000 + (hi - 0xD800) * 0x400 + (lo - 0xDC00)

-- `char::decode_utf16`: the characters, and `none` for each unit that belongs to none.
abbrev pub decode_utf16 : List ℕ → List (Option ℕ)
decode_utf16 [] = []
decode_utf16 (u ∷ []) = elim (is_surrogate u) [ true ↦ none ∷ [] | false ↦ some u ∷ [] ]
decode_utf16 (u ∷ v ∷ us) = elim (is_surrogate u) [
  | false ↦ some u ∷ decode_utf16 (v ∷ us)
  | true ↦ elim (is_low u) [
    | true ↦ none ∷ decode_utf16 (v ∷ us)
    | false ↦ elim (is_low v) [
      | true ↦ some (join u v) ∷ decode_utf16 us
      | false ↦ none ∷ decode_utf16 (v ∷ us)
    ]
  ]
]

-- `u16` units.
abbrev pub AreUnits : List ℕ → Type 0
AreUnits [] = Unit
AreUnits (u ∷ us) = (u < 0x1_0000) × AreUnits us
