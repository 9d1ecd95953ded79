-- ===== src/RefCount/Leaky.antt =====
-- Histories of a counter of src/refcount.rs: many references taken, then many released.
use kcom_rs.Prelude.{
  ℕ, zero, suc, ◌+◌, ◌-◌, ◌≤◌, ◌≡◌, min, Option, none, some, arith, Bool-cases, inl, inr, leb,
}
use kcom_rs.RefCount.{
  Build, hardened, leaky, max_refcount, Outcome, returned, panicked, violation, add, sub,
}

abbrev left : Outcome → Option ℕ
left (returned count value) = some count
left (panicked count) = none
left violation = none

-- `n` calls of `add` in a row, or of `sub`; `none` once a call does not return.
unfoldable pub adds : Build → ℕ → ℕ → Option ℕ
adds b zero c = some c
adds b (suc n) c = elim (left (add b c)) [ none ↦ none | some d ↦ adds b n d ]

unfoldable pub subs : Build → ℕ → ℕ → Option ℕ
subs b zero c = some c
subs b (suc n) c = elim (left (sub b c)) [ none ↦ none | some d ↦ subs b n d ]

adds-hardened : (n c d : ℕ) → adds hardened n c ≡ some d → d ≡ c + n
unfolding adds add
adds-hardened zero c d h = ground arith
adds-hardened (suc n) c d h = ground (arith, adds-hardened n (c + 1) d)

subs-hardened : (n c d : ℕ) → subs hardened n c ≡ some d → c ≡ d + n
unfolding subs sub
subs-hardened zero c d h = ground arith
subs-hardened (suc n) c d h = ground (arith, subs-hardened n (c - 1) d)

-- In the hardened build a new object, which starts at one reference, whose count goes up `n` times
-- and then down `m` times to zero has given back exactly the references that it handed out.
pub hardened_exact :
    (n m c : ℕ) → adds hardened n 1 ≡ some c → subs hardened m c ≡ some 0 → m ≡ n + 1
hardened_exact n m c up down = omega (arith, adds-hardened n 1 c up, subs-hardened m c 0 down)

pub adds-leaky : (n c : ℕ) → c ≤ max_refcount → adds leaky n c ≡ some (min (c + n) max_refcount)
unfolding adds add
adds-leaky zero c h = ground arith
adds-leaky (suc n) c h = elim (Bool-cases (leb max_refcount c)) [
  | inl full ↦ rw (full, adds) (ground (arith, adds-leaky n c h))
  | inr room ↦ rw (room, adds) (ground (arith, adds-leaky n (c + 1)))
]

subs-leaky : (n c : ℕ) → n ≤ c → subs leaky n c ≡ some (c - n)
unfolding subs sub
subs-leaky zero c h = ground arith
subs-leaky (suc n) c h = ground (arith, subs-leaky n (c - 1))

-- In the leaky build the count saturates but goes down again: an object that has handed out
-- `max_refcount + k` references reaches zero after `max_refcount` releases, whatever `k` is, while
-- `k` references are still held.
pub leaky_frees_early :
    (k c : ℕ) → adds leaky (max_refcount - 1 + k) 1 ≡ some c → subs leaky max_refcount c ≡ some 0
leaky_frees_early k c up =
    let full : c ≡ max_refcount =
      ground (arith, adds-leaky (max_refcount - 1 + k) 1 (omega arith)) in
    rw full (subs-leaky max_refcount max_refcount (omega arith))
