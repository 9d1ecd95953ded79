-- ===== src/Com/Run.antt =====
-- Calls that change a world and may not return.

use kcom_rs.Prelude.{◌≡◌, refl}

-- `halted` is a stop on purpose, by a bug check or a loop; `undefined` is an access to freed memory or
-- through a pointer that leads to no object, with the world at that moment.
pub data Outcome (A W : Type 0) : Type 0 where
  returned : A → W → Outcome A W
  halted : Outcome A W
  undefined : W → Outcome A W

abbrev pub Run : Type 0 → Type 0 → Type 0
Run W A = W → Outcome A W

module _ {W A B : Type 0} where
  infixl 5 ◌>>=◌
  abbrev pub ◌>>=◌ : Run W A → (A → Run W B) → Run W B
  ◌>>=◌ m f w = elim (m w) [
    | returned a w' ↦ f a w'
    | halted ↦ halted
    | undefined w' ↦ undefined w'
  ]

module _ {W A : Type 0} where
  abbrev pub pure : A → Run W A
  pure a w = returned a w

  abbrev pub halt : Run W A
  halt w = halted

  abbrev pub stray : Run W A
  stray w = undefined w

-- The rule for a sequence whose first part returns.
pub bind_lem :
    {W A B : Type 0} (m : Run W A) (f : A → Run W B) (w w' : W) (a : A)
    → m w ≡ returned a w'
    → (m >>= f) w ≡ f a w'
bind_lem m f w w' a e = rw (◌>>=◌, e) refl

-- A call whose result is not used.
abbrev pub quietly : {W A : Type 0} → Run W A → Run W (Unit {0})
quietly m = m >>= λ _. pure tt

pub quietly_lem :
    {W A : Type 0} (m : Run W A) (w w' : W) (a : A)
    → m w ≡ returned a w'
    → quietly m w ≡ returned tt w'
quietly_lem m w w' a e = bind_lem m (λ _. pure tt) w w' a e

-- The same for the first part of a sequence of three, however it ends.
pub bind_bind :
    {W A B C : Type 0} (m : Run W A) (g : A → Run W B) (f : B → Run W C) (w w' : W) (a : A)
    → m w ≡ returned a w'
    → ((m >>= g) >>= f) w ≡ (g a >>= f) w'
bind_bind m g f w w' a e = rw (◌>>=◌, e) refl
