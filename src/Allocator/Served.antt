-- ===== src/Allocator/Served.antt =====
-- src/allocator.rs: `ex_allocate_pool` and `ex_allocate_pool_uninitialized`, which call
-- `ExAllocatePool2` where its address was found and `ExAllocatePoolWithTag` else.
use kcom_rs.Prelude.{ℕ, ◌<◌, ◌≡◌, refl, arith, false, Option, none, some, ◌==◌, if◌then◌else◌}
use kcom_rs.Allocator.{Pool, zero_bytes, allocate_uninitialized, allocate_zeroed}
use Prim.Native.Nat.{bit_and, bit_or}

pub data PoolType : Type 0 where
  non_paged_nx paged : PoolType

abbrev pub pool_flag : PoolType → ℕ
pool_flag non_paged_nx = 0x40
pool_flag paged = 1

abbrev pub pool_flag_uninitialized : ℕ
pool_flag_uninitialized = 2

abbrev pub pool_type : PoolType → ℕ
pool_type non_paged_nx = 512
pool_type paged = 1

-- The two routines of the kernel, a parameter: `ExAllocatePool2` at an address, and
-- `ExAllocatePoolWithTag`. `given` is the block that a pool has, if it has one. As documented, the
-- first clears the block unless it is told not to, and the second does not clear it.
pub record Pools : Type 0 where
  pub given : PoolType → Option ℕ
  pub pool2 : (func flags size tag : ℕ) → Pool → ℕ × Pool
  pub with_tag : (type size tag : ℕ) → Pool → ℕ × Pool
  pub given_real : (t : PoolType) (base : ℕ) → given t ≡ some base → 0 < base
  pub pool2_cleared :
      (t : PoolType) (func flags size tag : ℕ) (pool : Pool)
      → bit_and flags (bit_or (pool_flag paged) (pool_flag non_paged_nx)) ≡ pool_flag t
      → bit_and flags pool_flag_uninitialized ≡ 0
      → pool2 func flags size tag pool ≡ allocate_zeroed (given t) size pool
  pub pool2_uncleared :
      (t : PoolType) (func flags size tag : ℕ) (pool : Pool)
      → bit_and flags (bit_or (pool_flag paged) (pool_flag non_paged_nx)) ≡ pool_flag t
      → bit_and flags pool_flag_uninitialized ≡ pool_flag_uninitialized
      → pool2 func flags size tag pool ≡ allocate_uninitialized (given t) size pool
  pub with_tag_lem :
      (t : PoolType) (size tag : ℕ) (pool : Pool)
      → with_tag (pool_type t) size tag pool ≡ allocate_uninitialized (given t) size pool

-- `ptr::write_bytes(ptr, 0, size)`, if `ptr` is not null.
abbrev pub write_zeros : (size : ℕ) → ℕ × Pool → ℕ × Pool
write_zeros size (p, pool) =
    if p == 0 then (p, pool) else (p, record pool { words = zero_bytes p size pool.words })

module _ (k : Pools) where
  -- `func` is what `get_ex_allocate_pool2` returned.
  unfoldable pub ex_allocate_pool : (func : Option ℕ) → PoolType → (size tag : ℕ) → Pool → ℕ × Pool
  ex_allocate_pool (some func) t size tag pool = k.pool2 func (pool_flag t) size tag pool
  ex_allocate_pool none t size tag pool = write_zeros size (k.with_tag (pool_type t) size tag pool)

  unfoldable pub ex_allocate_pool_uninitialized :
      (func : Option ℕ) → PoolType → (size tag : ℕ) → Pool → ℕ × Pool
  ex_allocate_pool_uninitialized (some func) t size tag pool =
      k.pool2 func (bit_or (pool_flag t) pool_flag_uninitialized) size tag pool
  ex_allocate_pool_uninitialized none t size tag pool = k.with_tag (pool_type t) size tag pool

  write_zeros-block :
      (base size : ℕ) (pool : Pool)
      → 0 < base
      → write_zeros size (allocate_uninitialized (some base) size pool)
        ≡ allocate_zeroed (some base) size pool
  write_zeros-block base size pool h = let n : (base == 0) ≡ false = ground (arith, h) in rw n refl

  write_zeros-uninitialized :
      (given : Option ℕ) (size : ℕ) (pool : Pool)
      → ((base : ℕ) → given ≡ some base → 0 < base)
      → write_zeros size (allocate_uninitialized given size pool) ≡ allocate_zeroed given size pool
  write_zeros-uninitialized none size pool h = refl
  write_zeros-uninitialized (some base) size pool h = write_zeros-block base size pool (h base refl)

  -- Whether `ExAllocatePool2` was found or not makes no difference to the caller, for either pool: the
  -- block comes from the pool that was asked for, `ex_allocate_pool` hands it out cleared, and
  -- `ex_allocate_pool_uninitialized` as it was; null is passed on.
  pub ex_allocate_lem :
      (func : Option ℕ) (t : PoolType) (size tag : ℕ) (pool : Pool)
      → (ex_allocate_pool func t size tag pool ≡ allocate_zeroed (k.given t) size pool)
        × (ex_allocate_pool_uninitialized func t size tag pool
            ≡ allocate_uninitialized (k.given t) size pool)
  unfolding ex_allocate_pool ex_allocate_pool_uninitialized
  ex_allocate_lem none t size tag pool = (
    rw (k.with_tag_lem t size tag pool)
        (write_zeros-uninitialized (k.given t) size pool (k.given_real t)),
    k.with_tag_lem t size tag pool,
  )
  ex_allocate_lem (some func) paged size tag pool = (
    k.pool2_cleared paged func 1 size tag pool refl refl,
    k.pool2_uncleared paged func 3 size tag pool refl refl,
  )
  ex_allocate_lem (some func) non_paged_nx size tag pool = (
    k.pool2_cleared non_paged_nx func 64 size tag pool refl refl,
    k.pool2_uncleared non_paged_nx func 66 size tag pool refl refl,
  )
