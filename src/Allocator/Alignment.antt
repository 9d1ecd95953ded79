-- ===== src/Allocator/Alignment.antt =====
-- The alignment of what `WdkAllocator` returns, and its failures (src/allocator.rs).
use kcom_rs.Prelude.{
  ℕ, zero, suc, ◌+◌, ◌*◌, ◌≤◌, ◌<◌, ◌≡◌, ◌≢◌, refl, ◌∙◌, Bool, true, false, Option, none, some,
  ◌==◌, if◌then◌else◌, u64_size, arith, Bool-cases, inl, inr,
}
use kcom_rs.Allocator.Mask.{pow2, pow2-positive}
use kcom_rs.Allocator.{
  Layout, Build, no_align, align_debug, align_release, Pool, header_size, needs_overaligned,
  refuses, alloc, dealloc, total_size, alloc_overaligned,
}
use kcom_rs.Allocator.Overaligned.{aligned_at_lem}
use kcom_rs.Allocator.Laws.{layout, user_address, block_size, after_alloc, alloc_lem}
use kcom_rs.Allocator.RoundTrip.{user_address-inside}

divides_sixteen : (k c : ℕ) → pow2 k ≤ 16 → (q : ℕ) × (c * 16 ≡ q * pow2 k)
divides_sixteen zero c h = (c * 16, omega arith)
divides_sixteen (suc zero) c h = (c * 8, omega arith)
divides_sixteen (suc (suc zero)) c h = (c * 4, omega arith)
divides_sixteen (suc (suc (suc zero))) c h = (c * 2, omega arith)
divides_sixteen (suc (suc (suc (suc zero)))) c h = (c, omega arith)
divides_sixteen (suc (suc (suc (suc (suc k))))) c h = absurd (omega (arith, pow2-positive k, h))

pub small_align :
    (b : Build) (l : Layout) → needs_overaligned b l ≡ false → refuses b l ≡ false → l.align ≤ 16
small_align no_align l e f = ground (arith, f)
small_align align_debug l e f = absurd (ground (arith, e))
small_align align_release l e f = ground (arith, e)

-- If the pool's blocks are aligned to 16 bytes, then in every build an allocation that is served returns
-- an address that is a multiple of the alignment asked for, and the whole size lies in the block that
-- was taken from the pool.
pub alloc-aligned :
    (b : Build) (k size c : ℕ)
    → k ≤ 64
    → 0 < size
    → refuses b (layout k size) ≡ false
    → 0 < c * 16
    → c * 16 + (size + pow2 k + header_size b) ≤ u64_size
    → (pool : Pool) (zeroed : Bool)
    → (p : ℕ) × ((alloc b (layout k size) zeroed (some (c * 16)) pool
          ≡ some (p, after_alloc b k size (c * 16) pool zeroed))
        × (((q : ℕ) × (p ≡ q * pow2 k))
            × ((c * 16 ≤ p) × (p + size ≤ c * 16 + block_size b k size))))
alloc-aligned b k size c small pos served real room pool zeroed = (
  user_address b k size (c * 16),
  (
    alloc_lem b k size small pos served (c * 16) real room pool zeroed,
    (
      elim (Bool-cases (needs_overaligned b (layout k size))) [
        | inl over ↦
            let (q, (e, r)) = aligned_at_lem b k size (c * 16) small room pos in (q, rw over e)
        | inr plain ↦
            let (q, e) = divides_sixteen k c (small_align b (layout k size) plain served) in
            (q, rw plain e)
      ],
      user_address-inside b k size small pos served (c * 16) real room pool zeroed,
    ),
  ),
)

-- If the pool has no memory, or the build does not serve the alignment, an allocation that is not
-- empty returns the null pointer, and nothing is taken from the pool.
pub alloc-null :
    (b : Build) (l : Layout) (zeroed : Bool) (pool : Pool)
    → 0 < l.size
    → alloc b l zeroed none pool ≡ some (0, pool)
unfolding alloc alloc_overaligned
alloc-null b l zeroed pool pos = elim (Bool-cases (needs_overaligned b l)) [
  | inl over ↦ rw (nonempty, over) (null (total_size b l))
  | inr plain ↦ rw (nonempty, plain) (either (refuses b l) zeroed)
]
  where
    nonempty : (l.size == 0) ≡ false
    nonempty = ground (arith, pos)

    either :
        (r z : Bool)
        → if◌then◌else◌ {A = Option (ℕ × Pool)} r
            (some (0, pool))
            (some (if◌then◌else◌ {A = ℕ × Pool} z (0, pool) (0, pool)))
          ≡ some (0, pool)
    either true z = refl
    either false true = refl
    either false false = refl

    null :
        (t : Option ℕ)
        → (elim t as (λ x. Option (ℕ × Pool)) [
          | none ↦ some (0, pool)
          | some total ↦ some (0, pool)
        ])
          ≡ some (0, pool)
    null none = refl
    null (some total) = refl

-- An empty allocation returns the address 1 in every build, whatever alignment it asks for, so the
-- address is not aligned unless the alignment is 1; giving it back does nothing.
pub alloc-empty :
    (b : Build) (k : ℕ) (zeroed : Bool) (given : Option ℕ) (pool : Pool) (q : ℕ)
    → (alloc b (layout (suc k) 0) zeroed given pool ≡ some (1, pool))
      × ((dealloc b 1 (layout (suc k) 0) pool ≡ some pool) × (1 ≢ q * pow2 (suc k)))
unfolding alloc dealloc
alloc-empty b k zeroed given pool q = (refl, (refl, λ e. odd (q * pow2 k) (e ∙ omega arith)))
  where
    odd : (n : ℕ) → 1 ≢ 2 * n
    odd n e = omega arith
