-- ===== src/Allocator/Overaligned.antt =====
-- Where `alloc_overaligned` (src/allocator.rs) puts its header and its result.
use kcom_rs.Prelude.{
  ℕ, ◌+◌, ◌-◌, ◌*◌, ◌≤◌, ◌<◌, ◌≡◌, refl, Bool, some, if◌then◌else◌, u64_size, arith,
}
use kcom_rs.Allocator.Mask.{pow2, bit_not, bit_and-RoundsDown}
use kcom_rs.Allocator.{Build, Pool, header_size, zero_bytes, checked_add, write_header, place}
use Prim.Native.Nat.{bit_and}

-- The aligned address that `alloc_overaligned` computes from a block's address.
abbrev pub aligned_at : Build → (base align : ℕ) → ℕ
aligned_at b base align = bit_and (base + header_size b + (align - 1)) (bit_not (align - 1))

module _ (b : Build) (k size base : ℕ) (small : k ≤ 64)
    (room : base + (size + pow2 k + header_size b) ≤ u64_size) where
  -- The result is a multiple of the alignment, with room for the header below it, and for the size
  -- above it, within the block.
  pub aligned_at_lem :
      0 < size
      → (q : ℕ) × ((aligned_at b base (pow2 k) ≡ q * pow2 k)
          × ((base + header_size b ≤ aligned_at b base (pow2 k))
              × (aligned_at b base (pow2 k) + size ≤ base + (size + pow2 k + header_size b))))
  aligned_at_lem pos =
      let (q, (e, (l, m))) =
        bit_and-RoundsDown k (base + header_size b + (pow2 k - 1)) small
          (omega (arith, room, pos)) in
      (q, (e, (omega (arith, m), omega (arith, l))))

  pub place_lem :
      (zeroed : Bool) (pool : Pool)
      → 0 < size
      → place b (record { size = size; align = pow2 k }) zeroed base pool
        ≡ some (
          aligned_at b base (pow2 k),
          record pool {
            words =
                if zeroed
                then zero_bytes
                    (aligned_at b base (pow2 k))
                    size
                    (write_header b (aligned_at b base (pow2 k)) base (pow2 k) pool.words)
                else write_header b (aligned_at b base (pow2 k)) base (pow2 k) pool.words;
          },
        )
  place_lem zeroed pool pos = rw (place, first, second) refl
    where
      first : checked_add base (header_size b) ≡ some (base + header_size b)
      first = ground (arith, room, pos)

      second :
          checked_add (base + header_size b) (pow2 k - 1)
          ≡ some (base + header_size b + (pow2 k - 1))
      second = ground (arith, room, pos)
