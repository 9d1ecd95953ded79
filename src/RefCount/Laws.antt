-- ===== src/RefCount/Laws.antt =====
-- What the three builds of src/refcount.rs have in common below their limit, and what each does at
-- its ends.
use kcom_rs.Prelude.{ℕ, suc, ◌+◌, ◌-◌, ◌≤◌, ◌<◌, ◌≡◌, ◌⊎◌, refl, true, false, some, arith, u32_size}
use kcom_rs.RefCount.{
  Build, plain, hardened, leaky, max_refcount, returned, panicked, violation, add, sub, returns,
  RefCounter,
}

abbrev pub limit_of : Build → ℕ
limit_of (plain checks) = u32_size - 1
limit_of hardened = max_refcount
limit_of leaky = max_refcount

-- Below the limit of a build, `add` counts up by one and `sub` counts the same step down again,
-- each returning the count that it leaves.
pub add-sub_within :
    (b : Build) (c : ℕ)
    → c < limit_of b
    → (add b c ≡ returned (c + 1) (c + 1)) × (sub b (c + 1) ≡ returned c c)
unfolding add sub
add-sub_within (plain true) c h = (ground arith, ground arith)
add-sub_within (plain false) c h = (ground arith, ground arith)
add-sub_within hardened c h = (ground arith, ground arith)
add-sub_within leaky c h = (ground arith, ground arith)

pub add_within : (b : Build) (c : ℕ) → c < limit_of b → returns (add b c) ≡ some (suc c, suc c)
add_within b c h = rw ((add-sub_within b c h).0) (ground arith)

pub sub_within : (b : Build) (c : ℕ) → c < limit_of b → returns (sub b (suc c)) ≡ some (c, c)
sub_within b c h = let e : suc c ≡ c + 1 = omega arith in rw (e, (add-sub_within b c h).1)

-- Each build serves as the counter of the objects that own one.
abbrev pub counter : Build → RefCounter
counter b = record {
  limit = limit_of b;
  add = λ c. returns (add b c);
  sub = λ c. returns (sub b c);
  add_within = add_within b;
  sub_within = sub_within b;
}

-- The hardened build stops instead of wrapping: from a count within the limit, `add` fails exactly
-- at the limit and otherwise stays within it, and `sub` fails exactly at zero.
pub hardened_guards :
    (c : ℕ)
    → c ≤ max_refcount
    → ((add hardened c ≡ violation) × (c ≡ max_refcount)
        ⊎ (add hardened c ≡ returned (c + 1) (c + 1)) × (c + 1 ≤ max_refcount))
      × ((sub hardened c ≡ violation) × (c ≡ 0)
          ⊎ (sub hardened c ≡ returned (c - 1) (c - 1)) × (0 < c))
unfolding add sub
hardened_guards c h = ground arith

-- Without hardening and without overflow checks the count wraps at both ends and is returned
-- wrapped; with overflow checks the call panics, after the wrapped count was stored.
pub plain_wraps :
    (add (plain false) (u32_size - 1) ≡ returned 0 0)
    × (sub (plain false) 0 ≡ returned (u32_size - 1) (u32_size - 1))
    × (add (plain true) (u32_size - 1) ≡ panicked 0)
    × (sub (plain true) 0 ≡ panicked (u32_size - 1))
unfolding add sub
plain_wraps = (refl, refl, refl, refl)
