-- ===== src/Allocator/RoundTrip.antt =====
-- Memory from `WdkAllocator` goes back to the pool as the block that it came from (src/allocator.rs).
use kcom_rs.Prelude.{
  ℕ, ◌+◌, ◌-◌, ◌≤◌, ◌<◌, ◌≡◌, refl, ◌∙◌, Bool, true, false, ◌&&◌, none, some, ◌==◌, if◌then◌else◌,
  u64_size, arith, Bool-cases, inl, inr,
}
use kcom_rs.Allocator.Mask.{pow2}
use kcom_rs.Allocator.{
  Layout, Build, align_debug, align_release, Pool, header_size, put_at, zero_bytes, write_header,
  needs_overaligned, refuses, dealloc_overaligned, free_pool, wdk_alloc_magic,
}
use kcom_rs.Allocator.Overaligned.{aligned_at, aligned_at_lem}
use kcom_rs.Allocator.Laws.{layout, block_size, user_address, header_words, words_after}

below-zero_bytes : (p size a : ℕ) (m : ℕ → ℕ) → a < p → zero_bytes p size m a ≡ m a
below-zero_bytes p size a m h = ground (arith, h)

free_pool_lem :
    (base n : ℕ) (pool : Pool)
    → pool.live base ≡ n
    → 0 < n
    → free_pool base pool ≡ some (record pool { live = put_at base 0 pool.live })
free_pool_lem base n pool e h = ground (arith, e, h)

put_at_same : (base n : ℕ) (m : ℕ → ℕ) → put_at base n m base ≡ n
put_at_same base n m = ground arith

pub debug_header :
    (p base align : ℕ) (m : ℕ → ℕ)
    → 24 ≤ p
    → (write_header align_debug p base align m (p - 24) ≡ wdk_alloc_magic)
      × ((write_header align_debug p base align m (p - 16) ≡ base)
          × (write_header align_debug p base align m (p - 8) ≡ align))
debug_header p base align m h = (ground (arith, h), (ground (arith, h), ground (arith, h)))

pub debug_dealloc :
    (p base align : ℕ) (l : Layout) (pool : Pool)
    → pool.words (p - 24) ≡ wdk_alloc_magic
    → pool.words (p - 8) ≡ l.align
    → pool.words (p - 16) ≡ base
    → dealloc_overaligned align_debug p l pool ≡ free_pool base pool
debug_dealloc p base align l pool e f g = rw (dealloc_overaligned, e, f, g) (same (l.align))
  where
    same :
        (a : ℕ)
        → (if (wdk_alloc_magic == wdk_alloc_magic) && (a == a) then free_pool base pool else none)
          ≡ free_pool base pool
    same a = let e : (a == a) ≡ true = ground arith in rw e refl

-- The pool when the caller has used its memory, and when the block was freed.
abbrev pub used : Build → (k size base : ℕ) → Pool → (ℕ → ℕ) → Pool
used b k size base pool later = record {
  live = put_at base (block_size b k size) pool.live;
  words = later;
}

abbrev pub freed : Build → (k size base : ℕ) → Pool → (ℕ → ℕ) → Pool
freed b k size base pool later = record {
  live = put_at base 0 (put_at base (block_size b k size) pool.live);
  words = later;
}

pub release_header :
    (p base align : ℕ) (m : ℕ → ℕ) → write_header align_release p base align m (p - 8) ≡ base
release_header p base align m = put_at_same (p - 8) base m

pub release_dealloc :
    (p base : ℕ) (l : Layout) (pool : Pool)
    → pool.words (p - 8) ≡ base
    → dealloc_overaligned align_release p l pool ≡ free_pool base pool
release_dealloc p base l pool e = rw (dealloc_overaligned, e) refl

module _ (b : Build) (k size : ℕ) (small : k ≤ 64) (pos : 0 < size)
    (served : refuses b (layout k size) ≡ false) (base : ℕ) (real : 0 < base)
    (room : base + (size + pow2 k + header_size b) ≤ u64_size) (pool : Pool) (zeroed : Bool) where
  -- The memory that the caller uses lies in the block that was taken from the pool.
  pub user_address-inside :
      (base ≤ user_address b k size base)
      × (user_address b k size base + size ≤ base + block_size b k size)
  user_address-inside = elim (Bool-cases (needs_overaligned b (layout k size))) [
    | inl over ↦
        let (q, (e, (l, m))) = aligned_at_lem b k size base small room pos in
        rw over (omega (arith, l), m)
    | inr plain ↦ rw plain (omega arith, omega arith)
  ]

  module _ (later : ℕ → ℕ)
      (kept : (a : ℕ)
        → a < user_address b k size base
        → later a ≡ words_after b k size base zeroed pool.words a) where
    block-positive : 0 < block_size b k size
    block-positive = elim (Bool-cases (needs_overaligned b (layout k size))) [
      | inl over ↦ rw over (omega (arith, pos))
      | inr plain ↦ rw plain pos
    ]

    pub free_lem :
        free_pool base (used b k size base pool later) ≡ some (freed b k size base pool later)
    free_lem =
        free_pool_lem base (block_size b k size) (used b k size base pool later)
          (put_at_same base (block_size b k size) pool.live) block-positive

    pub reads :
        (a : ℕ) → a < user_address b k size base → later a ≡ header_words b k size base pool.words a
    reads a h = kept a h ∙ below zeroed
      where
        below :
            (z : Bool)
            → words_after b k size base z pool.words a ≡ header_words b k size base pool.words a
        below true =
            below-zero_bytes (user_address b k size base) size a
              (header_words b k size base pool.words) h
        below false = refl

    pub reads_over :
        needs_overaligned b (layout k size) ≡ true
        → (a : ℕ) → a < aligned_at b base (pow2 k)
        → later a ≡ write_header b (aligned_at b base (pow2 k)) base (pow2 k) pool.words a
    reads_over over a h = reads a (omega (arith, address, h)) ∙ header
      where
        address : user_address b k size base ≡ aligned_at b base (pow2 k)
        address = rw over refl

        header :
            header_words b k size base pool.words a
            ≡ write_header b (aligned_at b base (pow2 k)) base (pow2 k) pool.words a
        header = rw over refl
