-- ===== src/Tests/Pool.antt =====
-- Examples for src/allocator.rs: two threads that look for `ExAllocatePool2`, what either routine of
-- the kernel hands out, and a `KBox` of 100 bytes aligned to 64.
use kcom_rs.Prelude.{
  ℕ, ◌≤◌, ◌<◌, ◌≡◌, ◌≢◌, refl, ap, arith, Bool, true, false, ◌&&◌, Option, none, some, List, [],
  ◌∷◌, ◌==◌, leb, if◌then◌else◌, M,
}
use kcom_rs.Allocator.{align_debug, Pool, put_at, allocate_uninitialized, allocate_zeroed}
use kcom_rs.Allocator.Laws.{layout}
use kcom_rs.Allocator.Resolve.{
  uninit, ready, outside, returned, calls_get, advances, Event, System, steps, loaded,
}
use kcom_rs.Allocator.Resolve.Safety.{resolve_lem}
use kcom_rs.Allocator.Resolve.Alone.{advances_by, get_lem}
use kcom_rs.Allocator.Served.{
  PoolType, non_paged_nx, paged, pool_flag, pool_type, Pools, ex_allocate_pool,
  ex_allocate_pool_uninitialized, ex_allocate_lem,
}
use kcom_rs.Allocator.KBox.{Outcome, done, Heap, init_once}
use kcom_rs.Allocator.KBox.Once.{once-InitReturns}
use kcom_rs.Allocator.KBox.Scope.{with_kbox, Lived, kbox_lem}
use kcom_rs.Allocator.KBox.Wdk.{wdk, Serves, Touched}
use Prim.Native.Nat.{bit_and}

-- Thread 1 looks at a raised IRQL and thread 2 at PASSIVE_LEVEL.
abbrev events : List Event
events =
    calls_get 1 2
    ∷ advances 1
    ∷ calls_get 2 0
    ∷ advances 2
    ∷ advances 2
    ∷ advances 1
    ∷ advances 2
    ∷ advances 2
    ∷ advances 1
    ∷ advances 2
    ∷ advances 2
    ∷ advances 2
    ∷ []

resolve_lem_example :
    (s : System) × (steps 77 events loaded ≡ some s)
    × (s.cache.lookups ≤ 1)
    × (s.cache.state ≡ ready → (s.cache.ptr ≡ 77) × (s.cache.lookups ≡ 1))
    × ((i f : ℕ) → s.threads i ≡ returned (some f) → (f ≡ 77) × (f ≢ 0))
resolve_lem_example = resolve_lem 77 events

get_lem_example :
    (s : System) × (steps 77
        (calls_get 1 0 ∷ advances_by 1 7)
        (record { cache = record { state = uninit; ptr = 0; lookups = 0 }; threads = λ i. outside })
      ≡ some s)
    × (s.threads 1 ≡ returned (some 77))
    × (s.cache ≡ record { state = ready; ptr = 77; lookups = 1 })
get_lem_example = get_lem 77 1 0 false refl uninit 0 0 (λ i. outside) refl

abbrev pool : Pool
pool = record { live = λ a. 0; words = λ a. 7 }

-- Kernel routines as documented; the paged pool is empty.
abbrev block : PoolType → Option ℕ
block non_paged_nx = some 4096
block paged = none

abbrev flagged : ℕ → PoolType
flagged flags = if bit_and flags 65 == 1 then paged else non_paged_nx

abbrev typed : ℕ → PoolType
typed type = if type == 1 then paged else non_paged_nx

flagged_lem : (t : PoolType) (flags : ℕ) → bit_and flags 65 ≡ pool_flag t → flagged flags ≡ t
flagged_lem paged flags e = rw e refl
flagged_lem non_paged_nx flags e = rw e refl

typed_lem : (t : PoolType) → typed (pool_type t) ≡ t
typed_lem paged = refl
typed_lem non_paged_nx = refl

block-real : (t : PoolType) (base : ℕ) → block t ≡ some base → 0 < base
block-real paged base e = absurd (ground (arith, e))
block-real non_paged_nx base e = ground (arith, e)

abbrev kernel : Pools
unfolding block-real flagged_lem typed_lem
kernel = record {
  given = block;
  pool2 = λ func flags size tag pool.
      if bit_and flags 2 == 0
      then allocate_zeroed (block (flagged flags)) size pool
      else allocate_uninitialized (block (flagged flags)) size pool;
  with_tag = λ type size tag pool. allocate_uninitialized (block (typed type)) size pool;
  given_real = block-real;
  pool2_cleared = λ t func flags size tag pool e c. rw (c, flagged_lem t flags e) refl;
  pool2_uncleared = λ t func flags size tag pool e c. rw (c, flagged_lem t flags e) refl;
  with_tag_lem =
      λ t size tag pool. ap (λ x. allocate_uninitialized (block x) size pool) (typed_lem t);
}

ex_allocate_lem_example :
    (ex_allocate_pool kernel (some 77) non_paged_nx 32 5 pool ≡ allocate_zeroed (some 4096) 32 pool)
    × (ex_allocate_pool_uninitialized kernel (some 77) non_paged_nx 32 5 pool
        ≡ allocate_uninitialized (some 4096) 32 pool)
unfolding kernel
ex_allocate_lem_example = ex_allocate_lem kernel (some 77) non_paged_nx 32 5 pool

-- A pool of one block, of up to 1000 bytes.
abbrev serve : Pool → ℕ → Option ℕ
serve pool n = if (pool.live 4096 == 0) && leb n 1000 then some 4096 else none

served_block :
    (free fits : Bool) (base : ℕ)
    → (if free && fits then some 4096 else none) ≡ some base
    → (free ≡ true) × (fits ≡ true) × (base ≡ 4096)
served_block true true base e = (refl, refl, ground (arith, e))
served_block true false base e = absurd (ground (arith, e))
served_block false fits base e = absurd (ground (arith, e))

serve-Serves : Serves serve
serve-Serves pool n base e =
    let (free, fits, b) = served_block (pool.live 4096 == 0) (leb n 1000) base e in
    let live : pool.live 4096 ≡ 0 = ground (arith, free) in
    let small : n ≤ 1000 = ground (arith, fits) in rw b (omega arith, live, omega (arith, small))

-- Code that stores a word at its value's address.
abbrev store_word : ℕ → (ptr : ℕ) → M Pool (Unit {0})
store_word v p pool = some (tt, record pool { words = put_at p v pool.words })

abbrev init : (ptr : ℕ) → M Pool (Outcome ℕ (Unit {0}))
init p pool = some (done tt, record pool { words = put_at p 5 pool.words })

stored-Touched : (v p : ℕ) (s : Pool) → Touched p s (record s { words = put_at p v s.words })
stored-Touched v p s = (refl, λ a l. ground (arith, l))

abbrev heap : Heap Pool
heap = record { memory = pool; drops = [] }

kbox_lem_example :
    Lived
      (wdk align_debug serve serve-Serves)
      (init_once (λ s. s))
      (some init)
      (store_word 9)
      (store_word 0)
      (layout 6 100)
      heap
      (with_kbox
        (wdk align_debug serve serve-Serves)
        (init_once (λ s. s))
        (some init)
        (store_word 9)
        (store_word 0)
        (layout 6 100)
        heap)
unfolding wdk
kbox_lem_example =
    kbox_lem (wdk align_debug serve serve-Serves) (init_once (λ s. s)) (some init) (store_word 9)
      (store_word 0) (layout 6 100) (6, omega arith, refl)
      (once-InitReturns (wdk align_debug serve serve-Serves) (λ s. s) init
        (λ p s. (done tt, record s { words = put_at p 5 s.words }, refl, stored-Touched 5 p s)))
      (λ p s. (record s { words = put_at p 9 s.words }, refl, stored-Touched 9 p s))
      (λ p s. (record s { words = put_at p 0 s.words }, refl, stored-Touched 0 p s)) heap
