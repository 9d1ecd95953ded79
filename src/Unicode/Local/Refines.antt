-- ===== src/Unicode/Local/Refines.antt =====
-- `LocalUnicodeString` (src/unicode.rs) is a string of bounded length.
use kcom_rs.Prelude.{
  ℕ, suc, ◌+◌, ◌*◌, ◌/◌, ◌%◌, ◌≡◌, ◌≤◌, ◌<◌, ◌⊎◌, refl, sym, ap, ◌∙◌, true, false, ◌==◌, Option,
  none, some, List, [], ◌∷◌, ◌++◌, ltb, if◌then◌else◌, length, set, take, min, u16_size, arith,
  Bool-cases, zero_or_suc, inl, inr, length-set, length-append, length-replicate,
}
use kcom_rs.Utf16.{encode_utf16, encode_char}
use kcom_rs.Unicode.{Result, ok, err, too_long, max_units, from_raw_parts, unicode_string_as_slice}
use kcom_rs.Unicode.Buffer.{write_units, write_units_lem, take-set, take-set_same}
use kcom_rs.Unicode.Local.{Local, new, clear, terminate, try_push_str, as_unicode_ref, as_utf16}
use mathlib.Core.List.{append_assoc}

encode-append : (s t : List ℕ) → encode_utf16 (s ++ t) ≡ encode_utf16 s ++ encode_utf16 t
encode-append [] t = refl
encode-append (c ∷ s) t =
    ap (λ r. encode_char c ++ r) (encode-append s t)
    ∙ sym (append_assoc (encode_char c) (encode_utf16 s) (encode_utf16 t))

-- The capacity in units, with the NUL.
abbrev pub cap : ℕ → ℕ
cap n = min n max_units

-- A buffer of `n` cells shows the string `s`: its units, then a NUL.
pub record Shows (n : ℕ) (s : List ℕ) (l : Local) : Type 0 where
  pub sized : length l.buffer ≡ n
  pub counted : l.len ≡ length (encode_utf16 s)
  pub units : take l.len l.buffer ≡ encode_utf16 s
  pub fits : ((n ≡ 0) × (l.len ≡ 0)) ⊎ (l.len + 1 ≤ cap n)
  pub terminated : (n ≡ 0) ⊎ (take (l.len + 1) l.buffer ≡ encode_utf16 s ++ 0 ∷ [])

-- The bounded string.
abbrev pub push : ℕ → List ℕ → List ℕ → List ℕ × Result (Unit {0})
push n s v =
    if ltb (cap n) (length (encode_utf16 (s ++ v)) + 1) then (s, err too_long) else (s ++ v, ok tt)

terminate_lem :
    (cells : List ℕ) (len : ℕ)
    → len < length cells
    → terminate cells len ≡ some (record { buffer = set cells len 0; len = len }, ok tt)
terminate_lem cells len h = ground (arith, h)

terminated-Shows :
    (n : ℕ) (s cells : List ℕ) (len : ℕ)
    → length cells ≡ n
    → len ≡ length (encode_utf16 s)
    → take len cells ≡ encode_utf16 s
    → len + 1 ≤ cap n
    → Shows n s (record { buffer = set cells len 0; len = len })
terminated-Shows n s cells len a b c d = record {
  sized = length-set cells len 0 ∙ a;
  counted = b;
  units = take-set_same cells len 0 ∙ c;
  fits = inr d;
  terminated =
      let one : len + 1 ≡ suc len = omega arith in
      inr (rw one (take-set cells len 0 (omega (arith, d, a)) ∙ ap (λ p. p ++ 0 ∷ []) c));
}

refused_lem :
    (l : Local) (v : List ℕ)
    → ltb (cap (length l.buffer)) (l.len + length (encode_utf16 v) + 1) ≡ true
    → try_push_str l v ≡ some (l, err too_long)
unfolding try_push_str
refused_lem l v e = rw e refl

accepted_lem :
    (l : Local) (v filled : List ℕ)
    → ltb (cap (length l.buffer)) (l.len + length (encode_utf16 v) + 1) ≡ false
    → write_units l.buffer l.len (encode_utf16 v) ≡ some filled
    → l.len + length (encode_utf16 v) < length filled
    → try_push_str l v
      ≡ some (
        record {
          buffer = set filled (l.len + length (encode_utf16 v)) 0;
          len = l.len + length (encode_utf16 v);
        },
        ok tt,
      )
unfolding try_push_str
accepted_lem l v filled e w h = rw (e, w) (terminate_lem filled (l.len + length (encode_utf16 v)) h)

-- `try_push_str` does what `push` says: a string that does not fit is refused and changes nothing, and
-- one that fits is appended. It writes inside the buffer only.
pub try_push_str-Shows :
    (n : ℕ) (s v : List ℕ) (l : Local)
    → Shows n s l
    → (l' : Local) × ((try_push_str l v ≡ some (l', (push n s v).1)) × Shows n (push n s v).0 l')
try_push_str-Shows n s v l h =
    elim (Bool-cases (ltb (cap n) (length (encode_utf16 (s ++ v)) + 1))) [
      | inl long ↦ (l, (rw long (refused_lem l v (test ∙ long)), rw long h))
      | inr short ↦
          let small : l.len + length (encode_utf16 v) + 1 ≤ cap n = ground (arith, short, total) in
          let (filled, (w, (f, g))) =
            write_units_lem (encode_utf16 v) l.buffer l.len (l.len + length (encode_utf16 v)) refl
              (omega (arith, small, h.sized)) in
          (
            record {
              buffer = set filled (l.len + length (encode_utf16 v)) 0;
              len = l.len + length (encode_utf16 v);
            },
            (
              rw short
                  (accepted_lem l v filled (test ∙ short) w (omega (arith, small, g, h.sized))),
              rw short (
                  terminated-Shows n (s ++ v) filled (l.len + length (encode_utf16 v)) (g ∙ h.sized)
                    total (f ∙ ap (λ p. p ++ encode_utf16 v) h.units ∙ sym (encode-append s v))
                    small),
            ),
          )
    ]
  where
    total : l.len + length (encode_utf16 v) ≡ length (encode_utf16 (s ++ v))
    total = omega (
      arith,
      h.counted,
      length-append (encode_utf16 s) (encode_utf16 v),
      ap length (encode-append s v),
    )

    test :
        ltb (cap (length l.buffer)) (l.len + length (encode_utf16 v) + 1)
        ≡ ltb (cap n) (length (encode_utf16 (s ++ v)) + 1)
    test =
        ap (λ k. ltb (cap k) (l.len + length (encode_utf16 v) + 1)) h.sized
        ∙ ap (λ k. ltb (cap n) (k + 1)) total

pub new-Shows : (n : ℕ) → Shows n [] (new n)
new-Shows n = record {
  sized = length-replicate n 0;
  counted = refl;
  units = refl;
  fits = elim (zero_or_suc n) [ inl z ↦ inl (z, refl) | inr (m, e) ↦ inr (ground (arith, e)) ];
  terminated = elim (zero_or_suc n) [ inl z ↦ inl z | inr (m, e) ↦ inr (rw e refl) ];
}

-- A sequence of calls of the bounded string: `none` is `clear`, `some v` is `try_push_str` of `v`. The
-- string after them, and what each push returned.
abbrev pub after : ℕ → List ℕ → List (Option (List ℕ)) → List ℕ
after n s [] = s
after n s (none ∷ calls) = after n [] calls
after n s (some v ∷ calls) = after n (push n s v).0 calls

abbrev pub results : ℕ → List ℕ → List (Option (List ℕ)) → List (Result (Unit {0}))
results n s [] = []
results n s (none ∷ calls) = results n [] calls
results n s (some v ∷ calls) = (push n s v).1 ∷ results n (push n s v).0 calls

-- The same calls of a `LocalUnicodeString`, with what each push returned.
abbrev pub with_result :
    Result (Unit {0})
    → Option (Local × List (Result (Unit {0})))
    → Option (Local × List (Result (Unit {0})))
with_result r none = none
with_result r (some (l, later)) = some (l, r ∷ later)

abbrev pub run : Local → List (Option (List ℕ)) → Option (Local × List (Result (Unit {0})))
run l [] = some (l, [])
run l (none ∷ calls) = run (clear l) calls
run l (some v ∷ calls) = elim (try_push_str l v) [
  | none ↦ none
  | some (l', r) ↦ with_result r (run l' calls)
]

clear-Shows : (n : ℕ) (s : List ℕ) (l : Local) → Shows n s l → Shows n [] (clear l)
unfolding clear
clear-Shows n s l h = elim (Bool-cases (length l.buffer == 0)) [
  | inl z ↦
      let empty : n ≡ 0 = ground (arith, z, h.sized) in
      rw z (record {
        sized = h.sized;
        counted = refl;
        units = refl;
        fits = inl (empty, refl);
        terminated = inl empty;
      })
  | inr e ↦ rw e (terminated-Shows n [] l.buffer 0 h.sized refl refl (ground (arith, e, h.sized)))
]

pub run-Shows :
    (n : ℕ) (s : List ℕ) (calls : List (Option (List ℕ))) (l : Local)
    → Shows n s l
    → (l' : Local) × ((run l calls ≡ some (l', results n s calls)) × Shows n (after n s calls) l')
run-Shows n s [] l h = (l, (refl, h))
run-Shows n s (none ∷ calls) l h = run-Shows n [] calls (clear l) (clear-Shows n s l h)
run-Shows n s (some v ∷ calls) l h =
    let (p, (e, k)) = try_push_str-Shows n s v l h in
    let (q, (f, m)) = run-Shows n (push n s v).0 calls p k in
    (q, (rw (run, e) (ap (with_result (push n s v).1) f), m))

-- What a buffer that shows `s` gives to the kernel and to the reader: the units of `s`, with lengths
-- that do not wrap around.
pub reads_lem :
    (n : ℕ) (s : List ℕ) (l : Local)
    → Shows n s l
    → (as_utf16 l ≡ some (encode_utf16 s))
      × ((unicode_string_as_slice (as_unicode_ref l) ≡ some (encode_utf16 s))
          × (((as_unicode_ref l).length_bytes ≡ length (encode_utf16 s) * 2)
              × ((as_unicode_ref l).length_bytes ≤ (as_unicode_ref l).maximum_length)))
unfolding as_utf16 as_unicode_ref unicode_string_as_slice from_raw_parts
reads_lem n s l h = (
  whole,
  (
    elim (zero_or_suc l.len) [
      | inl z ↦
          let nothing : [] ≡ encode_utf16 s = ap (λ k. take k l.buffer) (sym z) ∙ h.units in
          rw (zero_lem z) (ap some nothing)
      | inr (k, e) ↦ rw (half, positive k e) whole
    ],
    (
      omega (arith, bound, h.counted),
      ordered (length l.buffer) l.len (omega (arith, bound.0, h.sized)) bound.1,
    ),
  ),
)
  where
    bound : (l.len ≤ n) × (l.len ≤ max_units)
    bound = elim h.fits [ inl (z, e) ↦ omega (arith, e) | inr small ↦ omega (arith, small) ]

    whole : from_raw_parts l.buffer l.len ≡ some (encode_utf16 s)
    whole = ground (arith, h.units, h.sized, bound)

    half : l.len * 2 % u16_size / 2 ≡ l.len
    half = omega (arith, bound)

    zero_lem : l.len ≡ 0 → (l.len * 2 % u16_size == 0) ≡ true
    zero_lem z = ground (arith, z)

    positive : (k : ℕ) → l.len ≡ suc k → (l.len * 2 % u16_size == 0) ≡ false
    positive k e = ground (arith, e, bound)

    ordered : (a b : ℕ) → b ≤ a → b ≤ max_units → b * 2 % u16_size ≤ min a max_units * 2 % u16_size
    ordered a b h k = omega arith
