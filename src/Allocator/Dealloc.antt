-- ===== src/Allocator/Dealloc.antt =====
-- `dealloc` of `WdkAllocator` (src/allocator.rs), build by build.
use kcom_rs.Prelude.{
  ℕ, ◌+◌, ◌-◌, ◌≤◌, ◌<◌, ◌≡◌, refl, ◌∙◌, Bool, true, false, some, ◌==◌, u64_size, arith, Bool-cases,
  inl, inr,
}
use kcom_rs.Allocator.Mask.{pow2}
use kcom_rs.Allocator.{
  Build, no_align, align_debug, align_release, Pool, header_size, needs_overaligned, refuses,
  dealloc, dealloc_overaligned, free_pool, alloc,
}
use kcom_rs.Allocator.Overaligned.{aligned_at, aligned_at_lem}
use kcom_rs.Allocator.Laws.{layout, user_address, words_after, after_alloc, alloc_lem}
use kcom_rs.Allocator.RoundTrip.{
  used, freed, free_lem, reads, debug_header, debug_dealloc, release_dealloc, release_header,
  reads_over,
}

plain_dealloc :
    (b : Build) (k size base : ℕ) (pool : Pool)
    → 0 < size
    → needs_overaligned b (layout k size) ≡ false
    → dealloc b (user_address b k size base) (layout k size) pool ≡ free_pool base pool
unfolding dealloc
plain_dealloc b k size base pool h e =
    let n : (size == 0) ≡ false = ground (arith, h) in rw (n, e) refl

over_dealloc :
    (b : Build) (k size base : ℕ) (pool : Pool)
    → 0 < size
    → needs_overaligned b (layout k size) ≡ true
    → dealloc b (user_address b k size base) (layout k size) pool
      ≡ dealloc_overaligned b (aligned_at b base (pow2 k)) (layout k size) pool
unfolding dealloc
over_dealloc b k size base pool h e =
    let n : (size == 0) ≡ false = ground (arith, h) in rw (n, e) refl

-- Memory from `alloc` or `alloc_zeroed` that the caller wrote to only from its address on is given
-- back: `alloc` returns the address, `dealloc` finds its header intact where there is one, and frees
-- the very block that the pool gave.
pub alloc-dealloc :
    (b : Build) (k size : ℕ) (small : k ≤ 64) (pos : 0 < size)
    (served : refuses b (layout k size) ≡ false) (base : ℕ) (real : 0 < base)
    (room : base + (size + pow2 k + header_size b) ≤ u64_size) (pool : Pool) (zeroed : Bool)
    (later : ℕ → ℕ)
    (kept : (a : ℕ)
      → a < user_address b k size base
      → later a ≡ words_after b k size base zeroed pool.words a)
    → (alloc b (layout k size) zeroed (some base) pool
        ≡ some (user_address b k size base, after_alloc b k size base pool zeroed))
      × (dealloc b
            (user_address b k size base)
            (layout k size)
            (record (after_alloc b k size base pool zeroed) { words = later })
          ≡ some (freed b k size base pool later))
alloc-dealloc b k size small pos served base real room pool zeroed later kept =
    (alloc_lem b k size small pos served base real room pool zeroed, back b served room kept)
  where
    plain :
        (b : Build) (served : refuses b (layout k size) ≡ false)
        (room : base + (size + pow2 k + header_size b) ≤ u64_size)
        (kept : (a : ℕ)
          → a < user_address b k size base
          → later a ≡ words_after b k size base zeroed pool.words a)
        → needs_overaligned b (layout k size) ≡ false
        → dealloc b (user_address b k size base) (layout k size) (used b k size base pool later)
          ≡ some (freed b k size base pool later)
    plain b served room kept e =
        plain_dealloc b k size base (used b k size base pool later) pos e
        ∙ free_lem b k size small pos served base real room pool zeroed later kept

    back :
        (b : Build) (served : refuses b (layout k size) ≡ false)
        (room : base + (size + pow2 k + header_size b) ≤ u64_size)
        (kept : (a : ℕ)
          → a < user_address b k size base
          → later a ≡ words_after b k size base zeroed pool.words a)
        → dealloc b (user_address b k size base) (layout k size) (used b k size base pool later)
          ≡ some (freed b k size base pool later)
    back no_align served room kept = plain no_align served room kept refl
    back align_debug served room kept =
        let (q, (e, (l, m))) = aligned_at_lem align_debug k size base small room pos in
        let p = aligned_at align_debug base (pow2 k) in
        let (f, (g, h)) = debug_header p base (pow2 k) pool.words (omega (arith, l)) in
        over_dealloc align_debug k size base (used align_debug k size base pool later) pos refl
        ∙ debug_dealloc p base (pow2 k) (layout k size) (used align_debug k size base pool later)
            (reads align_debug k size small pos served base real room pool zeroed later kept
                (p - 24) (omega (arith, l))
              ∙ f)
            (reads align_debug k size small pos served base real room pool zeroed later kept (p - 8)
                (omega (arith, l))
              ∙ h)
            (reads align_debug k size small pos served base real room pool zeroed later kept
                (p - 16) (omega (arith, l))
              ∙ g)
        ∙ free_lem align_debug k size small pos served base real room pool zeroed later kept
    back align_release served room kept =
        elim (Bool-cases (needs_overaligned align_release (layout k size))) [
          | inl over ↦
              let (q, (e, (l, m))) = aligned_at_lem align_release k size base small room pos in
              let p = aligned_at align_release base (pow2 k) in
              over_dealloc align_release k size base (used align_release k size base pool later) pos
                over
              ∙ release_dealloc p base (layout k size) (used align_release k size base pool later) (
                  reads_over align_release k size small pos served base real room pool zeroed later
                    kept over (p - 8) (omega (arith, l))
                  ∙ release_header p base (pow2 k) pool.words)
              ∙ free_lem align_release k size small pos served base real room pool zeroed later kept
          | inr e ↦ plain align_release served room kept e
        ]
