-- ===== src/Allocator/Mask.antt =====
-- Rounding an address down to an alignment with a mask, `value & !(align - 1)` (src/allocator.rs).
use kcom_rs.Prelude.{
  ℕ, zero, suc, ◌+◌, ◌-◌, ◌*◌, ◌/◌, ◌%◌, ◌≤◌, ◌<◌, ◌≡◌, refl, ap, arith, min, u64_size,
}
use Prim.Native.Nat.{bit_and, digits, bit_and-bitwise}

abbrev pub pow2 : ℕ → ℕ
pow2 zero = 1
pow2 (suc k) = 2 * pow2 k

-- `w` ones above `k` zeros.
abbrev pub mask : (k w : ℕ) → ℕ
mask zero zero = 0
mask zero (suc w) = 2 * mask zero w + 1
mask (suc k) w = 2 * mask k w

-- 2 ^ (k + w)
abbrev pub top : (k w : ℕ) → ℕ
top zero w = pow2 w
top (suc k) w = 2 * top k w

-- `!x` on a `usize`
abbrev pub bit_not : ℕ → ℕ
bit_not x = u64_size - 1 - x

-- `r` is the greatest multiple of 2 ^ k that is at most `a`.
abbrev pub RoundsDown : (k a r : ℕ) → Type 0
RoundsDown k a r = (q : ℕ) × ((r ≡ q * pow2 k) × ((r ≤ a) × (a < r + pow2 k)))

abbrev and_digits : ℕ → ℕ → ℕ → ℕ
and_digits = digits (λ b. zero) min

pub pow2-positive : (k : ℕ) → 0 < pow2 k
pow2-positive zero = omega arith
pow2-positive (suc k) = omega (arith, pow2-positive k)

and_digits-ones : (n a w : ℕ) → a ≤ n → a < pow2 w → and_digits n a (mask 0 w) ≡ a
and_digits-ones zero a w h k = omega arith
and_digits-ones (suc n) zero w h k = refl
and_digits-ones (suc n) (suc a) zero h k = absurd (omega arith)
and_digits-ones (suc n) (suc a) (suc w) h k =
    let half : mask 0 (suc w) / 2 ≡ mask 0 w = omega arith in
    rw half (omega (arith, and_digits-ones n (suc a / 2) w (omega arith) (omega arith)))

doubled : (q p : ℕ) → q * p * 2 ≡ q * (2 * p)
doubled q p = omega arith

halved-RoundsDown :
    (k a r : ℕ) → RoundsDown k (a / 2) r → RoundsDown (suc k) a (r * 2 + min (a % 2) 0)
halved-RoundsDown k a r (q, (e, (l, m))) =
    (q, (omega (arith, doubled q (pow2 k), e), (omega (arith, l), omega (arith, m))))

and_digits-RoundsDown :
    (n a k w : ℕ) → a ≤ n → a < top k w → RoundsDown k a (and_digits n a (mask k w))
and_digits-RoundsDown n a zero w h l =
    let e = and_digits-ones n a w h l in
    (a, (omega (arith, e), (omega (arith, e), omega (arith, e))))
and_digits-RoundsDown zero a (suc k) w h l =
    (0, (omega arith, (omega arith, omega (arith, pow2-positive k))))
and_digits-RoundsDown (suc n) zero (suc k) w h l =
    (0, (omega arith, (omega arith, omega (arith, pow2-positive k))))
and_digits-RoundsDown (suc n) (suc a) (suc k) w h l =
    let half : mask (suc k) w / 2 ≡ mask k w = omega arith in
    let even : mask (suc k) w % 2 ≡ 0 = omega arith in
    rw (half, even)
      (halved-RoundsDown k (suc a) _
        (and_digits-RoundsDown n (suc a / 2) k w (omega arith) (omega arith)))

mask_lem : (k w : ℕ) → mask k w + pow2 k ≡ top k w
mask_lem zero zero = refl
mask_lem zero (suc w) = omega (arith, mask_lem zero w)
mask_lem (suc k) w = omega (arith, mask_lem k w)

top_lem : (k w m : ℕ) → m ≡ k + w → top k w ≡ pow2 m
top_lem zero w m e = let same : m ≡ w = omega (arith, e) in rw same refl
top_lem (suc k) w zero e = absurd (omega (arith, e))
top_lem (suc k) w (suc m) e = ap (λ x. 2 * x) (top_lem k w m (omega (arith, e)))

-- The mask of an alignment rounds every address of the machine down to it.
pub bit_and-RoundsDown :
    (k v : ℕ) → k ≤ 64 → v < u64_size → RoundsDown k v (bit_and v (bit_not (pow2 k - 1)))
bit_and-RoundsDown k v h l =
    let whole = top_lem k (64 - k) 64 (omega (arith, h)) in
    let same : mask k (64 - k) ≡ bit_not (pow2 k - 1) =
      omega (arith, mask_lem k (64 - k), whole, pow2-positive k) in
    rw (bit_and-bitwise v (bit_not (pow2 k - 1)), ← same)
      (and_digits-RoundsDown v v k (64 - k) (omega arith) (omega (arith, whole, l)))
