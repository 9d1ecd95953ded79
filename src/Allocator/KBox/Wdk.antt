-- ===== src/Allocator/KBox/Wdk.antt =====
-- `WdkAllocator` (src/allocator.rs) keeps the interface that `KBox` relies on.
use kcom_rs.Prelude.{
  ℕ, zero, suc, ◌+◌, ◌≤◌, ◌<◌, ◌≡◌, ◌≢◌, inl, inr, refl, sym, ap, subst, ◌∙◌, arith, true, false,
  Option, none, some, ◌==◌, if◌then◌else◌, u64_size, Bool-cases, Option-cases,
}
use kcom_rs.Allocator.Mask.{pow2}
use kcom_rs.Allocator.{
  Layout, Build, no_align, align_debug, align_release, Pool, header_size, needs_overaligned,
  refuses, alloc, dealloc,
}
use kcom_rs.Allocator.Laws.{layout, user_address, words_after, after_alloc}
use kcom_rs.Allocator.RoundTrip.{freed, user_address-inside}
use kcom_rs.Allocator.Dealloc.{alloc-dealloc}
use kcom_rs.Allocator.Alignment.{alloc-null, small_align}
use kcom_rs.Allocator.Interface.{Allocator}

-- The bytes that are asked of the pool.
abbrev pub asked : Build → Layout → ℕ
asked b l = if needs_overaligned b l then l.size + l.align + header_size b else l.size

abbrev pub returning : Option Pool → Option (Unit {0} × Pool)
returning none = none
returning (some pool) = some (tt, pool)

-- The pool, a parameter: what it answers, a block that is not in use and does not end in the last 40
-- bytes of the address space.
abbrev pub Serves : (Pool → (size : ℕ) → Option ℕ) → Type 0
Serves serve =
    (pool : Pool) (n base : ℕ)
    → serve pool n ≡ some base
    → (0 < base) × (pool.live base ≡ 0) × (base + (n + 40) ≤ u64_size)

abbrev pub Touched : (ptr : ℕ) → Pool → Pool → Type 0
Touched p s s' = (s'.live ≡ s.live) × ((a : ℕ) → a < p → s'.words a ≡ s.words a)

abbrev pub Restored : Pool → Pool → Type 0
Restored s s' = (a : ℕ) → s'.live a ≡ s.live a

abbrev pub Lawful : Build → (Pool → ℕ → Option ℕ) → Layout → Pool → Type 0
Lawful b serve l s =
    (p : ℕ) × (s1 : Pool) × (alloc b l false (serve s (asked b l)) s ≡ some (p, s1))
    × (p ≡ 0 → Restored s s1)
    × (p ≢ 0
        → (s2 : Pool) → Touched p s1 s2
        → (s3 : Pool) × (returning (dealloc b p l s2) ≡ some (tt, s3)) × Restored s s3)

pub Touched_trans : (p : ℕ) (s s1 s2 : Pool) → Touched p s s1 → Touched p s1 s2 → Touched p s s2
Touched_trans p s s1 s2 (e, f) (g, h) = (g ∙ e, λ a l. h a l ∙ f a l)

freed-Restored :
    (b : Build) (k size base : ℕ) (pool : Pool) (later : ℕ → ℕ)
    → pool.live base ≡ 0
    → Restored pool (freed b k size base pool later)
freed-Restored b k size base pool later e a = elim (Bool-cases (a == base)) [
  | inl y ↦ let f : base ≡ a = ground (arith, y) in rw y (subst (λ x. 0 ≡ pool.live x) f (sym e))
  | inr n ↦ rw n refl
]

header_size_le : (b : Build) → header_size b ≤ 24
header_size_le no_align = omega arith
header_size_le align_debug = omega arith
header_size_le align_release = omega arith

refused-null :
    (b : Build) (k size : ℕ) (given : Option ℕ) (s : Pool)
    → 0 < size
    → refuses b (layout k size) ≡ true
    → alloc b (layout k size) false given s ≡ some (0, s)
unfolding alloc
refused-null no_align k size given s pos r =
    let n : (size == 0) ≡ false = ground (arith, pos) in rw (n, r) refl
refused-null align_debug k size given s pos r = absurd (ground (arith, r))
refused-null align_release k size given s pos r = absurd (ground (arith, r))

module _ (b : Build) (serve : Pool → ℕ → Option ℕ) (serves : Serves serve) where
  null-Lawful :
      (l : Layout) (s : Pool)
      → alloc b l false (serve s (asked b l)) s ≡ some (0, s)
      → Lawful b serve l s
  null-Lawful l s e = (0, s, e, (λ z a. refl), λ n. absurd (n refl))

  empty-Lawful : (k : ℕ) (s : Pool) → Lawful b serve (layout k 0) s
  unfolding alloc dealloc
  empty-Lawful k s =
      (1, s, refl, (λ z a. refl), λ n s2 (live, words). (s2, refl, λ a. ap (λ f. f a) live))

  room-of :
      (k size base : ℕ)
      → refuses b (layout k size) ≡ false
      → base + (asked b (layout k size) + 40) ≤ u64_size
      → base + (size + pow2 k + header_size b) ≤ u64_size
  room-of k size base r h = elim (Bool-cases (needs_overaligned b (layout k size))) [
    | inl over ↦
        let a : asked b (layout k size) ≡ size + pow2 k + header_size b = rw over refl in
        omega (arith, a, h)
    | inr plain ↦
        let a : asked b (layout k size) ≡ size = rw plain refl in
        let d : pow2 k ≤ 16 = small_align b (layout k size) plain r in
        omega (arith, a, h, d, header_size_le b)
  ]

  -- The pool after the box's owner used it is that after the allocation, with other words.
  as-used :
      (k size base : ℕ) (s s2 : Pool)
      → s2.live ≡ (after_alloc b k size base s false).live
      → s2 ≡ record (after_alloc b k size base s false) { words = s2.words }
  as-used k size base s s2 e = ap (λ x. record { live = x; words = s2.words }) e

  block-Lawful :
      (k size base : ℕ) (s : Pool)
      → k ≤ 63
      → 0 < size
      → refuses b (layout k size) ≡ false
      → serve s (asked b (layout k size)) ≡ some base
      → Lawful b serve (layout k size) s
  block-Lawful k size base s small pos r e =
      let (real, free, end) = serves s (asked b (layout k size)) base e in
      let room : base + (size + pow2 k + header_size b) ≤ u64_size = room-of k size base r end in
      let k64 : k ≤ 64 = omega (arith, small) in
      let (low, high) = user_address-inside b k size k64 pos r base real room s false in
      (
        user_address b k size base,
        after_alloc b k size base s false,
        ap (λ g. alloc b (layout k size) false g s) e
            ∙ (alloc-dealloc b k size k64 pos r base real room s false
                (words_after b k size base false s.words) (λ a l. refl)).0,
        (λ z. absurd (omega (arith, z, low, real))),
        λ n s2 (live, words). (
          freed b k size base s s2.words,
          ap (λ x. returning (dealloc b (user_address b k size base) (layout k size) x))
                (as-used k size base s s2 live)
              ∙ ap returning
                  (alloc-dealloc b k size k64 pos r base real room s false s2.words words).1,
          freed-Restored b k size base s s2.words free,
        ),
      )

  refused-Lawful :
      (k size : ℕ) (s : Pool)
      → 0 < size
      → refuses b (layout k size) ≡ true
      → Lawful b serve (layout k size) s
  refused-Lawful k size s pos r =
      null-Lawful (layout k size) s
        (refused-null b k size (serve s (asked b (layout k size))) s pos r)

  nonempty-Lawful : (k size : ℕ) (s : Pool) → k ≤ 63 → 0 < size → Lawful b serve (layout k size) s
  nonempty-Lawful k size s small pos = elim (Bool-cases (refuses b (layout k size))) [
    | inl r ↦ refused-Lawful k size s pos r
    | inr r ↦ elim (Option-cases (serve s (asked b (layout k size)))) [
      | inl e ↦
          null-Lawful (layout k size) s (
            ap (λ g. alloc b (layout k size) false g s) e
            ∙ alloc-null b (layout k size) false s pos)
      | inr (base, e) ↦ block-Lawful k size base s small pos r e
    ]
  ]

  pub wdk-Lawful : (k size : ℕ) (s : Pool) → k ≤ 63 → Lawful b serve (layout k size) s
  wdk-Lawful k zero s small = empty-Lawful k s
  wdk-Lawful k (suc n) s small = nonempty-Lawful k (suc n) s small (omega arith)

  -- `WdkAllocator`, for the layouts of Rust: the alignment is a power of two.
  unfoldable pub wdk : Allocator Pool
  unfolding Touched_trans
  wdk = record {
    alloc = λ l s. alloc b l false (serve s (asked b l)) s;
    dealloc = λ p l s. returning (dealloc b p l s);
    Valid = λ l. (k : ℕ) × (k ≤ 63) × (l ≡ layout k l.size);
    Touched = Touched;
    Restored = Restored;
    Touched_refl = λ p s. (refl, λ a l. refl);
    Touched_trans = Touched_trans;
    alloc_lem =
        λ l (k, small, e) s. subst (λ x. Lawful b serve x s) (sym e) (wdk-Lawful k l.size s small);
  }
