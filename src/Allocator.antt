-- ===== src/Allocator.antt =====
-- src/allocator.rs: `WdkAllocator`, on a 64-bit machine.
--
-- The kernel's pool is a parameter: `given` is what one call of it answers. The state is what the
-- allocator and its caller can see of memory. An address is a number, and 0 is the null pointer.
pub mod Mask
pub mod Overaligned
pub mod Laws
pub mod RoundTrip
pub mod Alignment
pub mod Dealloc
pub mod Resolve
pub mod Served
pub mod Interface
pub mod KBox
use kcom_rs.Prelude.{
  ℕ, ◌+◌, ◌-◌, ◌*◌, ◌≤◌, ◌<◌, ◌≡◌, Bool, true, false, ◌&&◌, Option, none, some, ltb, leb, ◌==◌,
  if◌then◌else◌, u64_size,
}
use kcom_rs.Allocator.Mask.{bit_not}
use Prim.Native.Nat.{bit_and}

-- `core::alloc::Layout`
pub record Layout : Type 0 where
  pub size : ℕ
  pub align : ℕ

-- The builds: without the feature `wdk-alloc-align`; with it and `debug_assertions`; with it alone.
pub data Build : Type 0 where
  no_align align_debug align_release : Build

pub record Pool : Type 0 where
  pub live : ℕ → ℕ  -- the size of the pool block at an address, 0 if there is none
  pub words : ℕ → ℕ  -- the `usize` that is stored at an address

-- WDK_ALLOC_ALIGNMENT, WDK_ALLOC_MAGIC, WDK_ALLOC_HEADER_SIZE
abbrev pub wdk_alloc_alignment : ℕ
wdk_alloc_alignment = 16

abbrev pub wdk_alloc_magic : ℕ
wdk_alloc_magic = 0x4b43_4f4d

abbrev pub header_size : Build → ℕ
header_size no_align = 0
header_size align_debug = 24
header_size align_release = 8

abbrev pub put_at : ℕ → ℕ → (ℕ → ℕ) → ℕ → ℕ
put_at p v m a = if a == p then v else m a

-- `ptr::write_bytes(ptr, 0, size)`
abbrev pub zero_bytes : ℕ → ℕ → (ℕ → ℕ) → ℕ → ℕ
zero_bytes p size m a = if leb p a && ltb a (p + size) then 0 else m a

abbrev pub checked_add : ℕ → ℕ → Option ℕ
checked_add a b = if ltb (a + b) u64_size then some (a + b) else none

-- `ExFreePoolWithTag`: `none`, a bug check, for an address that is no block of the pool.
abbrev pub free_pool : ℕ → Pool → Option Pool
free_pool base pool =
    if pool.live base == 0 then none else some (record pool { live = put_at base 0 pool.live })

-- `ex_allocate_pool_uninitialized` and `ex_allocate_pool`
abbrev pub allocate_uninitialized : Option ℕ → ℕ → Pool → ℕ × Pool
allocate_uninitialized none size pool = (0, pool)
allocate_uninitialized (some base) size pool =
    (base, record pool { live = put_at base size pool.live })

abbrev pub allocate_zeroed : Option ℕ → ℕ → Pool → ℕ × Pool
allocate_zeroed none size pool = (0, pool)
allocate_zeroed (some base) size pool =
    (base, record { live = put_at base size pool.live; words = zero_bytes base size pool.words })

-- The header, written below the aligned address.
abbrev pub write_header : Build → (aligned base align : ℕ) → (ℕ → ℕ) → ℕ → ℕ
write_header no_align aligned base align m = m
write_header align_debug aligned base align m =
    put_at (aligned - 8) align
      (put_at (aligned - 16) base (put_at (aligned - 24) wdk_alloc_magic m))
write_header align_release aligned base align m = put_at (aligned - 8) base m

-- What `alloc_overaligned` does with the block at `base`; a block that it cannot use is freed again.
abbrev pub unused : ℕ → Pool → Option (ℕ × Pool)
unused base pool = elim (free_pool base pool) [ none ↦ none | some freed ↦ some (0, freed) ]

abbrev pub place : Build → Layout → (zeroed : Bool) → (base : ℕ) → Pool → Option (ℕ × Pool)
place b l zeroed base pool = elim (checked_add base (header_size b)) [
  | none ↦ unused base pool
  | some start ↦ elim (checked_add start (l.align - 1)) [
    | none ↦ unused base pool
    | some value ↦
        let aligned = bit_and value (bit_not (l.align - 1)) in
        let written = write_header b aligned base l.align pool.words in
        some (
          aligned,
          record pool { words = if zeroed then zero_bytes aligned l.size written else written },
        )
  ]
]

abbrev pub total_size : Build → Layout → Option ℕ
total_size b l = elim (checked_add l.size l.align) [
  | none ↦ none
  | some v ↦ checked_add v (header_size b)
]

unfoldable pub alloc_overaligned :
    Build → Layout → (zeroed : Bool) → (given : Option ℕ) → Pool → Option (ℕ × Pool)
alloc_overaligned b l zeroed given pool = elim (total_size b l) [
  | none ↦ some (0, pool)
  | some total ↦ elim given [
    | none ↦ some (0, pool)
    | some base ↦ place b l zeroed base (allocate_uninitialized (some base) total pool).1
  ]
]

abbrev pub needs_overaligned : Build → Layout → Bool
needs_overaligned no_align l = false
needs_overaligned align_debug l = true
needs_overaligned align_release l = ltb wdk_alloc_alignment l.align

abbrev pub refuses : Build → Layout → Bool
refuses no_align l = ltb wdk_alloc_alignment l.align
refuses align_debug l = false
refuses align_release l = false

-- `alloc` and `alloc_uninitialized`, which have the same code, and `alloc_zeroed`.
unfoldable pub alloc :
    Build → Layout → (zeroed : Bool) → (given : Option ℕ) → Pool → Option (ℕ × Pool)
unfolding alloc_overaligned
alloc b l zeroed given pool =
    if l.size == 0
    then some (1, pool)
    else if needs_overaligned b l
    then alloc_overaligned b l zeroed given pool
    else if refuses b l
    then some (0, pool)
    else some (
        if zeroed
        then allocate_zeroed given l.size pool
        else allocate_uninitialized given l.size pool)

-- `dealloc_overaligned`: in the debug build the header's magic and alignment are asserted.
abbrev pub dealloc_overaligned : Build → ℕ → Layout → Pool → Option Pool
dealloc_overaligned no_align ptr l pool = none
dealloc_overaligned align_debug ptr l pool =
    if (pool.words (ptr - 24) == wdk_alloc_magic) && (pool.words (ptr - 8) == l.align)
    then free_pool (pool.words (ptr - 16)) pool
    else none
dealloc_overaligned align_release ptr l pool = free_pool (pool.words (ptr - 8)) pool

unfoldable pub dealloc : Build → ℕ → Layout → Pool → Option Pool
dealloc b ptr l pool =
    if l.size == 0
    then some pool
    else if needs_overaligned b l
    then dealloc_overaligned b ptr l pool
    else free_pool ptr pool
