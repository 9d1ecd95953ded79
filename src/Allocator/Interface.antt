-- ===== src/Allocator/Interface.antt =====
-- src/allocator.rs: the trait `Allocator`, as what its callers use: operations on a memory `S`, and
-- what they rely on.
use kcom_rs.Prelude.{ℕ, ◌≡◌, ◌≢◌, some, M}
use kcom_rs.Allocator.{Layout}

-- `Touched p s s'`: from `s` to `s'` only what the memory at `p` may be used for was done.
-- `Restored s s'`: the same memory is in use.
pub record Allocator (S : Type 0) : Type 1 where
  pub alloc : Layout → M S ℕ
  pub dealloc : (ptr : ℕ) → Layout → M S (Unit {0})
  pub Valid : Layout → Type 0
  pub Touched : (ptr : ℕ) → S → S → Type 0
  pub Restored : S → S → Type 0
  pub Touched_refl : (p : ℕ) (s : S) → Touched p s s
  pub Touched_trans : (p : ℕ) (s s1 s2 : S) → Touched p s s1 → Touched p s1 s2 → Touched p s s2
  pub alloc_lem :
      (l : Layout)
      → Valid l
      → (s : S)
      → (p : ℕ) × (s1 : S) × (alloc l s ≡ some (p, s1))
        × (p ≡ 0 → Restored s s1)
        × (p ≢ 0
            → (s2 : S) → Touched p s1 s2
            → (s3 : S) × (dealloc p l s2 ≡ some (tt, s3)) × Restored s s3)
