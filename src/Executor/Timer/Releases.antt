-- ===== src/Executor/Timer/Releases.antt =====
-- The releases in the destructor of a kernel timer's future (src/executor.rs).
use kcom_rs.Prelude.{
  suc, ◌≡◌, inl, ◌+◌, ◌<◌, refl, arith, Bool, true, false, ◌||◌, some, ◌==◌, ◌>>◌, ◌>>=◌,
  if◌then◌else◌,
}
use kcom_rs.RefCount.{RefCounter}
use kcom_rs.Executor.Timer.{
  Kernel, FuturePc, resting, stored, dropping, gone, loaded, cancelled_timer, removed_dpc,
  released_once, Timer, drop_releases, drop_releases_again, step, release,
}
use kcom_rs.Executor.Timer.Inv.{
  Life, waiting, in_queue, fired_now, woken_now, over, count_of, refs_of, frees_of, timer_at, Good,
  Keeps, keeps, stays, frees-live, freed_by,
}
use kcom_rs.Executor.Timer.Ends.{release_lem, bit, taken_early}

module _ {K : Type 0} (rc : RefCounter) (tk : Kernel K) (room : 2 < rc.limit) where
  -- The first release of the destructor, by the number of references that the other holders have.
  subtract :
      (l : Life) (b : Bool) (t : Timer K)
      → release rc tk (record t { ref_count = refs_of l (suc (count_of b)); frees = 0 })
        ≡ some (
          tt,
          record t {
            ref_count = refs_of l (count_of b);
            frees = if refs_of l (count_of b) == 0 then 0 + 1 else 0;
          },
        )
  subtract over b t = release_lem rc tk room t (count_of b) (omega (arith, bit rc tk room b))
  subtract waiting b t = release_lem rc tk room t (suc (count_of b)) (bit rc tk room b)
  subtract in_queue b t = release_lem rc tk room t (suc (count_of b)) (bit rc tk room b)
  subtract fired_now b t = release_lem rc tk room t (suc (count_of b)) (bit rc tk room b)
  subtract woken_now b t = release_lem rc tk room t (suc (count_of b)) (bit rc tk room b)

  freed_then :
      (l : Life) (b : Bool)
      → (if refs_of l (count_of b) == 0 then 0 + 1 else 0) ≡ frees_of l (count_of b)
  freed_then over b = freed_by rc tk room (count_of b)
  freed_then waiting b = ground arith
  freed_then in_queue b = ground arith
  freed_then fired_now b = ground arith
  freed_then woken_now b = ground arith

  release_at :
      (l : Life) (c r : Bool) (t : Timer K)
      → Good tk l (removed_dpc c r) t
      → Keeps rc tk room (step rc tk drop_releases (timer_at l (removed_dpc c r) t))
  unfolding step
  release_at l c r t g =
      keeps rc tk room l (released_once (c || r)) t
        (rw
          (
            frees-live rc tk room l (count_of (c || r)),
            ◌>>◌,
            ◌>>=◌,
            subtract l (c || r) (timer_at l (removed_dpc c r) t),
            freed_then l (c || r),
          )
          refl)
        g

  pub releases-Keeps :
      (l : Life) (pc : FuturePc) (t : Timer K)
      → Good tk l pc t
      → Keeps rc tk room (step rc tk drop_releases (timer_at l pc t))
  unfolding step
  releases-Keeps l (removed_dpc c r) t g = release_at l c r t g
  releases-Keeps l resting t g = stays rc tk room l resting t g
  releases-Keeps l stored t g = stays rc tk room l stored t g
  releases-Keeps l dropping t g = stays rc tk room l dropping t g
  releases-Keeps l gone t g = stays rc tk room l gone t g
  releases-Keeps l (loaded v) t g = stays rc tk room l (loaded v) t g
  releases-Keeps l (cancelled_timer c) t g = stays rc tk room l (cancelled_timer c) t g
  releases-Keeps l (released_once b) t g = stays rc tk room l (released_once b) t g

  pub releases_again-Keeps :
      (l : Life) (pc : FuturePc) (t : Timer K)
      → Good tk l pc t
      → Keeps rc tk room (step rc tk drop_releases_again (timer_at l pc t))
  unfolding step
  releases_again-Keeps l (released_once false) t (p, taken) =
      keeps rc tk room l gone t refl (p, inl refl)
  releases_again-Keeps over (released_once true) t (p, taken) =
      keeps rc tk room over gone t
        (rw
          (
            ◌>>◌,
            ◌>>=◌,
            release_lem rc tk room (timer_at over (released_once true) t) 0 (omega (arith, room)),
          )
          refl)
        (p, inl refl)
  releases_again-Keeps waiting (released_once true) t (p, taken) =
      absurd (taken_early rc tk room waiting taken (λ e. cc e))
  releases_again-Keeps in_queue (released_once true) t (p, taken) =
      absurd (taken_early rc tk room in_queue taken (λ e. cc e))
  releases_again-Keeps fired_now (released_once true) t (p, taken) =
      absurd (taken_early rc tk room fired_now taken (λ e. cc e))
  releases_again-Keeps woken_now (released_once true) t (p, taken) =
      absurd (taken_early rc tk room woken_now taken (λ e. cc e))
  releases_again-Keeps l resting t g = stays rc tk room l resting t g
  releases_again-Keeps l stored t g = stays rc tk room l stored t g
  releases_again-Keeps l dropping t g = stays rc tk room l dropping t g
  releases_again-Keeps l gone t g = stays rc tk room l gone t g
  releases_again-Keeps l (loaded v) t g = stays rc tk room l (loaded v) t g
  releases_again-Keeps l (cancelled_timer c) t g = stays rc tk room l (cancelled_timer c) t g
  releases_again-Keeps l (removed_dpc c r) t g = stays rc tk room l (removed_dpc c r) t g
