-- ===== src/Unicode/Buffer.antt =====
-- Writing UTF-16 units into a buffer (the loops of src/unicode.rs).
use kcom_rs.Prelude.{
  ℕ, zero, suc, ◌+◌, ◌≤◌, ◌<◌, ◌≡◌, refl, sym, ap, ◌∙◌, Option, none, some, List, [], ◌∷◌, ◌++◌,
  ltb, if◌then◌else◌, length, take, set, length-set, arith,
}
use mathlib.Core.List.{append-nil, append_assoc}

-- A write of one cell: `none` if it is outside the buffer.
abbrev pub write : List ℕ → ℕ → ℕ → Option (List ℕ)
write cells idx u = if ltb idx (length cells) then some (set cells idx u) else none

-- The loop that writes the units from the cell `idx` on.
abbrev pub write_units : List ℕ → ℕ → List ℕ → Option (List ℕ)
write_units cells idx [] = some cells
write_units cells idx (u ∷ us) = elim (write cells idx u) [
  | none ↦ none
  | some next ↦ write_units next (suc idx) us
]

pub write_lem :
    (cells : List ℕ) (idx u : ℕ) → idx < length cells → write cells idx u ≡ some (set cells idx u)
write_lem cells idx u h = ground (arith, h)

pub take-set :
    (cells : List ℕ) (idx u : ℕ)
    → idx < length cells
    → take (suc idx) (set cells idx u) ≡ take idx cells ++ u ∷ []
take-set [] idx u h = absurd (omega arith)
take-set (c ∷ cells) zero u h = refl
take-set (c ∷ cells) (suc idx) u h = ap (◌∷◌ c) (take-set cells idx u (omega arith))

pub take-set_same : (cells : List ℕ) (idx u : ℕ) → take idx (set cells idx u) ≡ take idx cells
take-set_same [] zero u = refl
take-set_same [] (suc idx) u = refl
take-set_same (c ∷ cells) zero u = refl
take-set_same (c ∷ cells) (suc idx) u = ap (◌∷◌ c) (take-set_same cells idx u)

pub write_units-cons :
    (cells : List ℕ) (idx u : ℕ) (us : List ℕ)
    → idx < length cells
    → write_units cells idx (u ∷ us) ≡ write_units (set cells idx u) (suc idx) us
write_units-cons cells idx u us h = rw (write_units, write_lem cells idx u h) refl

-- The loop stays inside a buffer with room for the units, and leaves what was before them.
pub write_units_lem :
    (us cells : List ℕ) (idx n : ℕ)
    → n ≡ idx + length us
    → n ≤ length cells
    → (left : List ℕ) × ((write_units cells idx us ≡ some left)
        × ((take n left ≡ take idx cells ++ us) × (length left ≡ length cells)))
write_units_lem [] cells idx n k h = (
  cells,
  (
    refl,
    (let same : n ≡ idx = omega (arith, k) in rw same (sym (append-nil (take idx cells))), refl),
  ),
)
write_units_lem (u ∷ us) cells idx n k h =
    let (left, (e, (f, g))) =
      write_units_lem us (set cells idx u) (suc idx) n (omega (arith, k))
        (omega (arith, h, length-set cells idx u)) in
    let inside : idx < length cells = omega (arith, h, k) in
    (
      left,
      (
        write_units-cons cells idx u us inside ∙ e,
        (
          f
              ∙ ap (λ p. p ++ us) (take-set cells idx u inside)
              ∙ append_assoc (take idx cells) (u ∷ []) us,
          g ∙ length-set cells idx u,
        ),
      ),
    )
