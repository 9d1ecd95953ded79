-- ===== src/Allocator/Laws.antt =====
-- What `WdkAllocator` promises in each build (src/allocator.rs).
use kcom_rs.Prelude.{
  ℕ, ◌+◌, ◌≤◌, ◌<◌, ◌≡◌, refl, ◌∙◌, Bool, true, false, some, ◌==◌, if◌then◌else◌, u64_size, arith,
  Bool-cases, inl, inr,
}
use kcom_rs.Allocator.Mask.{pow2}
use kcom_rs.Allocator.{
  Layout, Build, Pool, header_size, put_at, zero_bytes, checked_add, write_header, place,
  total_size, alloc_overaligned, needs_overaligned, refuses, alloc,
}
use kcom_rs.Allocator.Overaligned.{aligned_at, place_lem}

abbrev pub layout : (k size : ℕ) → Layout
layout k size = record { size = size; align = pow2 k }

-- The bytes that are asked of the pool, the address that the caller gets, and memory afterwards.
abbrev pub block_size : Build → (k size : ℕ) → ℕ
block_size b k size =
    if needs_overaligned b (layout k size) then size + pow2 k + header_size b else size

abbrev pub user_address : Build → (k size base : ℕ) → ℕ
user_address b k size base =
    if needs_overaligned b (layout k size) then aligned_at b base (pow2 k) else base

abbrev pub header_words : Build → (k size base : ℕ) → (ℕ → ℕ) → ℕ → ℕ
header_words b k size base m =
    if needs_overaligned b (layout k size)
    then write_header b (aligned_at b base (pow2 k)) base (pow2 k) m
    else m

abbrev pub words_after : Build → (k size base : ℕ) → Bool → (ℕ → ℕ) → ℕ → ℕ
words_after b k size base true m =
    zero_bytes (user_address b k size base) size (header_words b k size base m)
words_after b k size base false m = header_words b k size base m

abbrev pub after_alloc : Build → (k size base : ℕ) → Pool → Bool → Pool
after_alloc b k size base pool zeroed = record {
  live = put_at base (block_size b k size) pool.live;
  words = words_after b k size base zeroed pool.words;
}

module _ (b : Build) (k size : ℕ) (small : k ≤ 64) (pos : 0 < size)
    (served : refuses b (layout k size) ≡ false) (base : ℕ) (real : 0 < base)
    (room : base + (size + pow2 k + header_size b) ≤ u64_size) (pool : Pool) where
  total_lem : total_size b (layout k size) ≡ some (size + pow2 k + header_size b)
  total_lem = rw (total_size, first) second
    where
      first : checked_add size (pow2 k) ≡ some (size + pow2 k)
      first = ground (arith, room, real)

      second : checked_add (size + pow2 k) (header_size b) ≡ some (size + pow2 k + header_size b)
      second = ground (arith, room, real)

  nonempty : (size == 0) ≡ false
  nonempty = ground (arith, pos)

  taken : Pool
  taken = record pool { live = put_at base (size + pow2 k + header_size b) pool.live }

  over_lem :
      (zeroed : Bool)
      → alloc_overaligned b (layout k size) zeroed (some base) pool
        ≡ place b (layout k size) zeroed base taken
  unfolding alloc_overaligned taken
  over_lem zeroed = rw (alloc_overaligned, total_lem) refl

  branch_lem :
      (zeroed : Bool)
      → needs_overaligned b (layout k size) ≡ true
      → alloc b (layout k size) zeroed (some base) pool
        ≡ alloc_overaligned b (layout k size) zeroed (some base) pool
  unfolding alloc
  branch_lem zeroed over = rw (nonempty, over) refl

  placed_lem :
      (zeroed : Bool)
      → needs_overaligned b (layout k size) ≡ true
      → place b (layout k size) zeroed base taken
        ≡ some (user_address b k size base, after_alloc b k size base pool zeroed)
  unfolding taken
  placed_lem true over = place_lem b k size base small room true taken pos ∙ rw over refl
  placed_lem false over = place_lem b k size base small room false taken pos ∙ rw over refl

  plain_lem :
      (zeroed : Bool)
      → needs_overaligned b (layout k size) ≡ false
      → alloc b (layout k size) zeroed (some base) pool
        ≡ some (user_address b k size base, after_alloc b k size base pool zeroed)
  unfolding alloc
  plain_lem true plain = rw (nonempty, plain, served) refl
  plain_lem false plain = rw (nonempty, plain, served) refl

  -- An allocation that the pool serves returns the address, and changes memory as said above.
  pub alloc_lem :
      (zeroed : Bool)
      → alloc b (layout k size) zeroed (some base) pool
        ≡ some (user_address b k size base, after_alloc b k size base pool zeroed)
  alloc_lem zeroed = elim (Bool-cases (needs_overaligned b (layout k size))) [
    | inl over ↦ branch_lem zeroed over ∙ over_lem zeroed ∙ placed_lem zeroed over
    | inr plain ↦ plain_lem zeroed plain
  ]
