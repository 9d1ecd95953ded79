-- ===== src/Tests/Async.antt =====
-- Examples for src/async_com.rs.
use kcom_rs.Prelude.{
  ℕ, zero, suc, ◌≡◌, refl, arith, true, false, some, [], ◌∷◌, take, Poll, ready, pending,
}
use kcom_rs.Status.{ok, err, status_pending, status_insufficient_resources}
use kcom_rs.RefCount.{leaky}
use kcom_rs.RefCount.Laws.{counter}
use kcom_rs.AsyncCom.{
  started, object, new_state, stores, store_result, get_status_raw, get_result_raw,
}
use kcom_rs.AsyncCom.Object.{shim_release, unstarted, spawn_raw, drive}
use kcom_rs.AsyncCom.Readers.{Ending, completes, stores_of, readers_lem}
use kcom_rs.AsyncCom.Life.{shared, spawn_raw_lem, left_with, drive_lem, held, release-drive}

-- A future that gives 7 after some polls.
abbrev counting : ℕ → Poll ℕ × ℕ
counting zero = (ready 7, zero)
counting (suc n) = (pending, n)

abbrev two : ℕ
two = 2

abbrev answer : Ending ℕ
answer = completes 7

readers_lem_example :
    (get_status_raw (object (stores (take 2 (stores_of answer)) new_state)) ≡ ok started)
    × (get_result_raw (object (stores (take 2 (stores_of answer)) new_state))
        ≡ some (err status_pending))
unfolding store_result
readers_lem_example = readers_lem answer 2

spawn_raw_lem_example :
    spawn_raw {T = ℕ} (counter leaky) (ok tt) (err status_insufficient_resources) two
    ≡ some (err status_insufficient_resources, some (record shared { refs = 0; freed = true }))
spawn_raw_lem_example =
    spawn_raw_lem (counter leaky) (omega arith) (ok tt) (err status_insufficient_resources) two

drive_lem_example :
    left_with (drive (counter leaky) counting (false ∷ false ∷ false ∷ []) (unstarted 2) shared)
    ≡ some (some (ok 7), 1, false)
drive_lem_example =
    drive_lem counting (counter leaky) (omega arith) (false ∷ false ∷ false ∷ []) 2 (unstarted 2)
      shared (spawn_raw_lem (counter leaky) (omega arith) (ok tt) (ok tt) 2)

released : shim_release {T = ℕ} (counter leaky) shared ≡ some (held 0)
unfolding shim_release
released = rw ((counter leaky).sub_within 1 (omega arith)) refl

release-drive_example :
    left_with (drive (counter leaky) counting (false ∷ false ∷ false ∷ []) (unstarted 2) (held 0))
    ≡ some (some (ok 7), 0, true)
release-drive_example =
    release-drive counting (counter leaky) (omega arith) (false ∷ false ∷ false ∷ []) 2
      (unstarted 2) shared (held 0) (spawn_raw_lem (counter leaky) (omega arith) (ok tt) (ok tt) 2)
      released
