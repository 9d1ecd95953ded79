-- ===== src/RefCount.antt =====
-- src/refcount.rs: the shared reference counter, in its three builds.
pub mod Laws
pub mod Leaky
use kcom_rs.Prelude.{
  ℕ, suc, ◌+◌, ◌-◌, ◌%◌, ◌^◌, ◌<◌, ◌≡◌, Bool, ◌&&◌, Option, none, some, leb, ◌==◌, if◌then◌else◌,
  u32_size,
}

-- The feature flags: none, `refcount-hardening`, and that with `leaky-hardening`. Without
-- hardening the `+ 1` and `- 1` on the value read may be compiled with overflow checks.
pub data Build : Type 0 where
  plain : (overflow_checks : Bool) → Build
  hardened : Build
  leaky : Build

-- `i32::MAX as u32`
abbrev pub max_refcount : ℕ
max_refcount = 2 ^ 31 - 1

-- What a call does: it leaves a count in the atomic and returns a value, or it panics after the
-- count was stored, or it ends in `refcount_violation`, which does not return.
pub data Outcome : Type 0 where
  returned : (count value : ℕ) → Outcome
  panicked : (count : ℕ) → Outcome
  violation : Outcome

-- `fetch_update` repeats its compare-exchange until the count it read is the count it replaces, so
-- it acts as one step on the count.
unfoldable pub add : Build → ℕ → Outcome
add (plain checks) curr =
    let next = (curr + 1) % u32_size in
    if checks && curr == u32_size - 1 then panicked next else returned next next
add hardened curr = if leb max_refcount curr then violation else returned (curr + 1) (curr + 1)
add leaky curr =
    if leb max_refcount curr then returned curr max_refcount else returned (curr + 1) (curr + 1)

unfoldable pub sub : Build → ℕ → Outcome
sub (plain checks) curr =
    let next = (curr + u32_size - 1) % u32_size in
    if checks && curr == 0 then panicked next else returned next next
sub hardened curr = if curr == 0 then violation else returned (curr - 1) (curr - 1)
sub leaky curr = if curr == 0 then returned curr max_refcount else returned (curr - 1) (curr - 1)

-- What the owners of a counter use: the count left and the value returned, or `none` when the call
-- does not return. Below the limit the two operations count exactly.
pub record RefCounter : Type 0 where
  pub limit : ℕ
  pub add : ℕ → Option (ℕ × ℕ)
  pub sub : ℕ → Option (ℕ × ℕ)
  pub add_within : (c : ℕ) → c < limit → add c ≡ some (suc c, suc c)
  pub sub_within : (c : ℕ) → c < limit → sub (suc c) ≡ some (c, c)

abbrev pub returns : Outcome → Option (ℕ × ℕ)
returns (returned count value) = some (count, value)
returns (panicked count) = none
returns violation = none
