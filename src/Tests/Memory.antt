-- ===== src/Tests/Memory.antt =====
-- Examples for src/allocator.rs: 100 bytes aligned to 64 in the build with debug assertions, from a
-- pool block at the address 4096.
use kcom_rs.Prelude.{ℕ, ◌+◌, ◌*◌, ◌≤◌, ◌≡◌, refl, true, some, arith}
use kcom_rs.Allocator.{align_debug, Pool, alloc, dealloc}
use kcom_rs.Allocator.Laws.{layout, words_after, after_alloc}
use kcom_rs.Allocator.RoundTrip.{freed}
use kcom_rs.Allocator.Dealloc.{alloc-dealloc}
use kcom_rs.Allocator.Alignment.{alloc-aligned}

abbrev pool : Pool
pool = record { live = λ a. 0; words = λ a. 7 }

alloc-dealloc_example :
    (alloc align_debug (layout 6 100) true (some 4096) pool
      ≡ some (4160, after_alloc align_debug 6 100 4096 pool true))
    × (dealloc align_debug 4160
          (layout 6 100)
          (record (after_alloc align_debug 6 100 4096 pool true) {
            words = words_after align_debug 6 100 4096 true pool.words;
          })
        ≡ some (
            freed align_debug 6 100 4096 pool (words_after align_debug 6 100 4096 true pool.words)))
alloc-dealloc_example =
    alloc-dealloc align_debug 6 100 (omega arith) (omega arith) refl 4096 (omega arith)
      (omega arith) pool true (words_after align_debug 6 100 4096 true pool.words) (λ a h. refl)

alloc-aligned_example :
    (p : ℕ) × ((alloc align_debug (layout 6 100) true (some 4096) pool
        ≡ some (p, after_alloc align_debug 6 100 4096 pool true))
      × (((q : ℕ) × (p ≡ q * 64)) × ((4096 ≤ p) × (p + 100 ≤ 4096 + 188))))
alloc-aligned_example =
    alloc-aligned align_debug 6 100 256 (omega arith) (omega arith) refl (omega arith) (omega arith)
      pool true
