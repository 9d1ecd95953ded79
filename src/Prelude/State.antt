-- ===== src/Prelude/State.antt =====
-- Code that reads and writes one shared state and may stop: `none` is an access to freed memory, or
-- a call that does not return, such as a bug check.
use mathlib.Core.Bool.{Bool, true, false}
use mathlib.Core.Option.{Option, none, some}

abbrev pub M : Type 0 → Type 0 → Type 0
M S A = S → Option (A × S)

module _ {S A B : Type 0} where
  infixl 5 ◌>>=◌
  abbrev pub ◌>>=◌ : M S A → (A → M S B) → M S B
  ◌>>=◌ m f s = elim (m s) [ none ↦ none | some (a, s') ↦ f a s' ]

module _ {S B : Type 0} where
  infixl 5 ◌>>◌
  abbrev pub ◌>>◌ : M S (Unit {0}) → M S B → M S B
  m >> k = m >>= λ _. k

module _ {S A : Type 0} where
  abbrev pub pure : A → M S A
  pure a s = some (a, s)

  abbrev pub lift : Option A → M S A
  lift none s = none
  lift (some a) s = some (a, s)

abbrev pub get : {S : Type 0} → M S S
get s = some (s, s)

abbrev pub put : {S : Type 0} → S → M S (Unit {0})
put s' s = some (tt, s')

-- A statement under a test with no `else`.
abbrev pub when : {S : Type 0} → Bool → M S (Unit {0}) → M S (Unit {0})
when true m = m
when false m = pure tt

-- The call returns, and what it returns and leaves satisfies `P`.
abbrev pub Returns : {S A : Type 0} → (A → S → Type 0) → Option (A × S) → Type 0
Returns P none = ⊥
Returns P (some (a, s)) = P a s

-- The rule for a sequence: the first part returns with `P`, and from every such state the second part
-- returns with `Q`.
pub Returns-bind :
    {S A B : Type 0} (P : A → S → Type 0) (Q : B → S → Type 0) (r : Option (A × S)) (f : A → M S B)
    → Returns P r
    → ((a : A) (s : S) → P a s → Returns Q (f a s))
    → Returns Q (elim r [ none ↦ none | some (a, s') ↦ f a s' ])
Returns-bind P Q none f h k = h
Returns-bind P Q (some (a, s)) f h k = k a s h

pub Returns-map :
    {S A : Type 0} (P Q : A → S → Type 0)
    → ((a : A) (s : S) → P a s → Q a s)
    → (r : Option (A × S)) → Returns P r
    → Returns Q r
Returns-map P Q f none h = h
Returns-map P Q f (some (a, s)) h = f a s h
