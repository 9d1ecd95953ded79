-- ===== src/Tests/Objects.antt =====
-- Examples for src/refcount.rs and src/task.rs.
use kcom_rs.Prelude.{
  ℕ, zero, suc, ◌+◌, ◌-◌, ◌≡◌, refl, true, false, some, [], ◌∷◌, Poll, ready, pending, arith,
}
use kcom_rs.RefCount.{leaky, hardened, max_refcount, add, sub}
use kcom_rs.RefCount.Leaky.{adds, subs, adds-leaky, hardened_exact, leaky_frees_early}
use kcom_rs.Task.{Cancellable, running_main, try_finally, poll}
use kcom_rs.Task.Drops.{Ends, DropsOnce, polls, poll-IsConsistent, try_finally-DropsOnce}

two_more : adds hardened 2 1 ≡ some 3
unfolding adds add
two_more = refl

three_less : subs hardened 3 3 ≡ some 0
unfolding subs sub
three_less = refl

hardened_exact_example : 3 ≡ 2 + 1
hardened_exact_example = hardened_exact 2 3 3 two_more three_less

leaky_frees_early_example : subs leaky max_refcount max_refcount ≡ some 0
leaky_frees_early_example =
    leaky_frees_early 5 max_refcount (adds-leaky (max_refcount - 1 + 5) 1 (omega arith))

-- A main future that counts down, and a cleanup that is ready at once.
abbrev count_down : ℕ → Poll ℕ × ℕ
count_down zero = (ready 42, zero)
count_down (suc n) = (pending, n)

abbrev at_once : Unit {0} → Poll (Unit {0}) × Unit {0}
at_once u = (ready tt, tt)

abbrev fresh_future : Cancellable ℕ (Unit {0})
fresh_future = record {
  state = running_main;
  main = record { value = 0; drops = 0 };
  cleanup = record { value = tt; drops = 0 };
}

poll-IsConsistent_example : Ends running_main (poll count_down at_once true fresh_future)
poll-IsConsistent_example = poll-IsConsistent count_down at_once true fresh_future (refl, refl)

try_finally-DropsOnce_example :
    DropsOnce (polls count_down at_once (false ∷ true ∷ false ∷ []) (try_finally 5 tt))
try_finally-DropsOnce_example =
    try_finally-DropsOnce count_down at_once 5 tt (false ∷ true ∷ false ∷ [])
