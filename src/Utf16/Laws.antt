-- ===== src/Utf16/Laws.antt =====
-- Encoding and decoding UTF-16 undo each other.
use kcom_rs.Prelude.{
  ℕ, ◌+◌, ◌-◌, ◌*◌, ◌/◌, ◌%◌, ◌<◌, ◌≤◌, ◌≡◌, ◌≢◌, refl, ap, sym, subst, ◌∙◌, true, false, Option,
  none, some, List, [], ◌∷◌, ◌++◌, ltb, inl, inr, arith, map, length, length-append, Bool-cases,
}
use kcom_rs.Utf16.{
  IsChar, IsStr, AreUnits, encode_char, encode_utf16, len_utf8, utf8_size, is_surrogate, is_low,
  join, decode_utf16,
}

decode-plain :
    (u : ℕ) (us : List ℕ)
    → is_surrogate u ≡ false
    → decode_utf16 (u ∷ us) ≡ some u ∷ decode_utf16 us
decode-plain u [] e = rw (decode_utf16, e) refl
decode-plain u (v ∷ us) e = rw (decode_utf16, e) refl

decode-pair :
    (u v : ℕ) (us : List ℕ)
    → is_surrogate u ≡ true
    → is_low u ≡ false
    → is_low v ≡ true
    → decode_utf16 (u ∷ v ∷ us) ≡ some (join u v) ∷ decode_utf16 us
decode-pair u v us e f g = rw (decode_utf16, e, f, g) refl

abbrev high : ℕ → ℕ
high c = 0xD800 + (c - 0x1_0000) / 0x400

abbrev low : ℕ → ℕ
low c = 0xDC00 + (c - 0x1_0000) % 0x400

join_lem : (c : ℕ) → 0x1_0000 ≤ c → join (high c) (low c) ≡ c
join_lem c h = omega arith

decode-char :
    (c : ℕ) (us : List ℕ) → IsChar c → decode_utf16 (encode_char c ++ us) ≡ some c ∷ decode_utf16 us
decode-char c us h = elim (Bool-cases (ltb c 0x1_0000)) [
  | inl one ↦ rw one (decode-plain c us (ground (arith, one)))
  | inr two ↦ rw two (
      decode-pair (high c) (low c) us (ground (arith, two)) (ground (arith, two))
        (ground (arith, two))
      ∙ ap (λ x. some x ∷ decode_utf16 us) (join_lem c (ground (arith, two))))
]

pub decode-encode : (s : List ℕ) → IsStr s → decode_utf16 (encode_utf16 s) ≡ map some s
decode-encode [] h = refl
decode-encode (c ∷ s) (h, k) =
    decode-char c (encode_utf16 s) h ∙ ap (◌∷◌ (some c)) (decode-encode s k)

-- The units are an encoding of the string, whose bytes are at most three times as many.
abbrev pub IsEncoding : List ℕ → List ℕ → Type 0
IsEncoding us s = IsStr s × ((encode_utf16 s ≡ us) × (utf8_size s ≤ 3 * length us))

cons_lem :
    (c d : ℕ) (t : List ℕ) (os : List (Option ℕ))
    → some c ∷ os ≡ map some (d ∷ t)
    → (c ≡ d) × (os ≡ map some t)
cons_lem c d t os e = ground arith

more-IsEncoding :
    (c : ℕ) (us t : List ℕ) → IsChar c → IsEncoding us t → IsEncoding (encode_char c ++ us) (c ∷ t)
more-IsEncoding c us t h (k, (e, n)) = (
  (h, k),
  (ap (λ x. encode_char c ++ x) e, omega (arith, n, length-append (encode_char c) us, size_le c h)),
)
  where
    size_le : (c : ℕ) → IsChar c → len_utf8 c ≤ 3 * length (encode_char c)
    size_le c h = ground arith

char-IsEncoding :
    (c : ℕ) (us s : List ℕ)
    → IsChar c
    → some c ∷ decode_utf16 us ≡ map some s
    → ((t : List ℕ) → decode_utf16 us ≡ map some t → IsEncoding us t)
    → IsEncoding (encode_char c ++ us) s
char-IsEncoding c us [] h e k = absurd (ground arith)
char-IsEncoding c us (d ∷ t) h e k =
    let (same, rest) = cons_lem c d t (decode_utf16 us) e in
    rw (← same) (more-IsEncoding c us t h (k t rest))

plain-IsChar : (u : ℕ) → u < 0x1_0000 → is_surrogate u ≡ false → IsChar u × (encode_char u ≡ u ∷ [])
plain-IsChar u h e = ground (arith, e)

pair-IsChar :
    (u v : ℕ)
    → is_surrogate u ≡ true
    → is_low u ≡ false
    → is_low v ≡ true
    → IsChar (join u v) × (encode_char (join u v) ≡ u ∷ v ∷ [])
pair-IsChar u v e f g = ground (arith, e, f, g)

lone_absurd : (os : List (Option ℕ)) (s : List ℕ) → none ∷ os ≢ map some s
lone_absurd os [] e = ground arith
lone_absurd os (c ∷ s) e = ground arith

-- A surrogate is decoded with its successor, or not at all.
surrogate_lem :
    (u v : ℕ) (us s : List ℕ)
    → is_surrogate u ≡ true
    → decode_utf16 (u ∷ v ∷ us) ≡ map some s
    → (is_low u ≡ false) × (is_low v ≡ true)
surrogate_lem u v us s e f = elim (Bool-cases (is_low u)) [
  | inl l ↦ absurd (lone_absurd _ s (sym (lone l) ∙ f))
  | inr l ↦ elim (Bool-cases (is_low v)) [
    | inl m ↦ (l, m)
    | inr m ↦ absurd (lone_absurd _ s (sym (unpaired l m) ∙ f))
  ]
]
  where
    lone : is_low u ≡ true → decode_utf16 (u ∷ v ∷ us) ≡ none ∷ decode_utf16 (v ∷ us)
    lone l = rw (decode_utf16, e, l) refl

    unpaired :
        is_low u ≡ false
        → is_low v ≡ false
        → decode_utf16 (u ∷ v ∷ us) ≡ none ∷ decode_utf16 (v ∷ us)
    unpaired l m = rw (decode_utf16, e, l, m) refl

plain-IsEncoding :
    (u : ℕ) (us s : List ℕ)
    → u < 0x1_0000
    → is_surrogate u ≡ false
    → decode_utf16 (u ∷ us) ≡ map some s
    → ((t : List ℕ) → decode_utf16 us ≡ map some t → IsEncoding us t)
    → IsEncoding (u ∷ us) s
plain-IsEncoding u us s h f e k =
    let (char, same) = plain-IsChar u h f in
    subst (λ p. IsEncoding (p ++ us) s) same
      (char-IsEncoding u us s char (sym (decode-plain u us f) ∙ e) k)

pub decode-IsEncoding :
    (us s : List ℕ) → AreUnits us → decode_utf16 us ≡ map some s → IsEncoding us s
decode-IsEncoding [] [] h e = (tt, (refl, omega arith))
decode-IsEncoding [] (c ∷ t) h e = absurd (ground arith)
decode-IsEncoding (u ∷ []) s (h, k) e = elim (Bool-cases (is_surrogate u)) [
  | inl lone ↦ absurd (lone_absurd [] s (sym (rw (decode_utf16, lone) refl) ∙ e))
  | inr plain ↦ plain-IsEncoding u [] s h plain e (λ t f. decode-IsEncoding [] t tt f)
]
decode-IsEncoding (u ∷ v ∷ us) s (h, (k, l)) e = elim (Bool-cases (is_surrogate u)) [
  | inl high ↦
      let (f, g) = surrogate_lem u v us s high e in
      let (char, same) = pair-IsChar u v high f g in
      subst (λ p. IsEncoding (p ++ us) s) same
        (char-IsEncoding (join u v) us s char (sym (decode-pair u v us high f g) ∙ e)
          (λ t x. decode-IsEncoding us t l x))
  | inr plain ↦
      plain-IsEncoding u (v ∷ us) s h plain e (λ t f. decode-IsEncoding (v ∷ us) t (k, l) f)
]
