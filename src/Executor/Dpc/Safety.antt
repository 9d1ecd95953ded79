-- ===== src/Executor/Dpc/Safety.antt =====
-- A whole run of `dpc_routine` (src/executor.rs), from the kernel's queue to its return.
use kcom_rs.Prelude.{
  ℕ, zero, suc, ◌+◌, ◌-◌, ◌≤◌, ◌<◌, ◌≡◌, refl, Option, M, ◌>>◌, ◌>>=◌, List, Returns, Returns-bind,
  arith, inl, inr, Poll, ready, pending, some, none, get, put, pure, true, false, Bool, ◌==◌,
  if◌then◌else◌, Bool-cases,
}
use kcom_rs.RefCount.{RefCounter}
use kcom_rs.Executor.Budget.{Settings, Clock, Spent, fresh, spend}
use kcom_rs.Executor.Dpc.{Task, Kernel, header, release, drop_raw}
use kcom_rs.Executor.Dpc.Inv.{Inv, add_ref-Inv, release-Inv}
use kcom_rs.Executor.Dpc.Owners.{Owners, total}
use kcom_rs.Executor.Dpc.Routine.{
  Act, Round, Exit, skipped, set_slot, on_poll, poll_loop, run_task, dpc_routine, run_dpc,
}
use kcom_rs.Executor.Dpc.Loop.{
  Obeys, perform_all-Inv, ended, ended-le, stage_of, Left, on_ready-Left, on_pending-Left, held-le,
}

module _ (rc : RefCounter) (kernel : Kernel) (cpu : Option ℕ) (cap : ℕ) (room : cap + 2 ≤ rc.limit)
    (settings : Settings) (clock : Clock) (future : ℕ → Round) (drop_acts : List Act)
    (start : Owners) (fits : total start ≤ cap) (lent : start.running ≡ 2)
    (obeys : Obeys cap future drop_acts start) where
  open obeys use {held, polled, begins}

  LeftHere : Exit → Task → Type 0
  LeftHere = Left rc kernel cpu cap room settings clock future drop_acts start fits lent obeys

  answer-Left :
      (i : ℕ) (spent : Spent) (next : M Task Exit)
      → ((u : Task) → Inv 0 (total (held (suc i))) u → Returns LeftHere (next u))
      → (result : Poll (Unit {0})) (s : Task) → Inv 0 (total (held (suc i))) s
      → Returns LeftHere
          (on_poll rc kernel cpu settings clock future drop_acts result i spent next s)
  unfolding LeftHere on_poll
  answer-Left i spent next k (ready r) s w =
      on_ready-Left rc kernel cpu cap room settings clock future drop_acts start fits lent obeys i s
        w
  answer-Left i spent next k pending s w =
      on_pending-Left rc kernel cpu cap room settings clock future drop_acts start fits lent obeys i
        spent next s w k

  poll_loop-Left :
      (rounds i : ℕ) (spent : Spent) (t : Task)
      → Inv 0 (total (held i)) t
      → Returns LeftHere (poll_loop rc kernel cpu settings clock future drop_acts rounds i spent t)
  unfolding poll_loop LeftHere
  poll_loop-Left zero i spent t v = (i, v)
  poll_loop-Left (suc rounds) i spent t v =
      Returns-bind (λ _ s. Inv 0 (total (held (suc i))) s) LeftHere _ _
        (perform_all-Inv rc kernel cpu 0 cap room (future i).acts (held i) (held (suc i)) t
          (held-le rc kernel cpu cap room settings clock future drop_acts start fits lent obeys i).0
          (polled i) v)
        (λ _.
          answer-Left i spent _ (poll_loop-Left rounds (suc i) (spend settings spent))
            (future i).result)

  -- The references that are left when a run that took the exit `e` after poll number `i` returns: all
  -- but the two that the run held.
  abbrev pub remaining : Exit → ℕ → ℕ
  remaining e i =
      total (ended rc kernel cpu cap room settings clock future drop_acts start fits lent obeys e i)
      - 2

  abbrev pub Ran : Exit → Task → Type 0
  Ran e t = (i : ℕ) × Inv (stage_of e) (remaining e i) t

  set_slot-Inv :
      (c n : ℕ) (k : Option ℕ) (b : Bool) (t : Task) → Inv c n t → Inv c n (set_slot k b t)
  set_slot-Inv c n none b t v = v
  set_slot-Inv c n (some k) b t v = ground arith

  end_of_run : (e : Exit) → M Task Exit
  unfolding drop_raw
  end_of_run e = do u ← get; put (set_slot cpu false u); release rc; drop_raw rc kernel true; pure e

  end_of_run-Ran : (e : Exit) (t : Task) → LeftHere e t → Returns Ran (end_of_run e t)
  unfolding LeftHere end_of_run drop_raw
  end_of_run-Ran e t (i, v) =
      Returns-bind (λ _ s. Inv (stage_of e) (suc (remaining e i)) s) Ran _ _
        (release-Inv rc kernel (stage_of e) (suc (remaining e i)) (set_slot cpu false t)
          (set_slot-Inv (stage_of e) (suc (suc (remaining e i))) cpu false t (rw count at v))
          (omega (arith, room, le, count)))
        (λ _ s w.
          Returns-bind (λ _ u. Inv (stage_of e) (remaining e i) u) Ran _ _
            (release-Inv rc kernel (stage_of e) (remaining e i) s w
              (omega (arith, room, le, count)))
            (λ _ u x. (i, x)))
    where
      bounds :
          (total (
              ended rc kernel cpu cap room settings clock future drop_acts start fits lent obeys e
                i)
            ≤ cap)
          × ((ended rc kernel cpu cap room settings clock future drop_acts start fits lent obeys e
                i).running
              ≡ 2)
      bounds =
          ended-le rc kernel cpu cap room settings clock future drop_acts start fits lent obeys e i

      le :
          total
            (ended rc kernel cpu cap room settings clock future drop_acts start fits lent obeys e i)
          ≤ cap
      le = bounds.0

      count :
          total
            (ended rc kernel cpu cap room settings clock future drop_acts start fits lent obeys e i)
          ≡ suc (suc (remaining e i))
      count = omega (arith, bounds.1)

  run_task-Ran :
      (rounds : ℕ) (t : Task)
      → Inv 0 (suc (total start - 2)) t
      → Returns Ran (run_task rc kernel cpu settings clock future drop_acts rounds t)
  unfolding run_task end_of_run
  run_task-Ran rounds t v =
      Returns-bind (λ _ s. Inv 0 (total (held 0)) s) Ran _ _
        (rw (begins, two)
          (add_ref-Inv rc kernel 0 (total start - 2) t v (omega (arith, room, fits, two))))
        (λ _ s w.
          Returns-bind LeftHere Ran _ _
            (poll_loop-Left rounds 0 (fresh settings) (set_slot cpu true s)
              (set_slot-Inv 0 _ cpu true s w))
            end_of_run-Ran)
    where
      two : total start ≡ suc (suc (total start - 2))
      two = omega (arith, lent)

-- A whole run, with the owners `o` before it.
module _ (rc : RefCounter) (kernel : Kernel) (cpu : Option ℕ) (cap : ℕ) (room : cap + 2 ≤ rc.limit)
    (settings : Settings) (clock : Clock) (future : ℕ → Round) (drop_acts : List Act) (o : Owners)
    (fits : total o + 2 ≤ cap) (idle : o.running ≡ 0)
    (obeys : Obeys cap future drop_acts (record o { running = 2 })) where
  pub start_le : total (record o { running = 2 }) ≤ cap
  start_le = omega (arith, fits)

  -- The references when the run has returned: `skipped` leaves them as they were.
  abbrev pub after : Exit → ℕ → ℕ
  after e i =
      remaining rc kernel cpu cap room settings clock future drop_acts (record o { running = 2 })
        start_le refl obeys e i

  dequeued-Inv :
      (c d n : ℕ) (t : Task)
      → n ≡ suc (total o)
      → t.completed ≡ d
      → 0 < t.queued
      → Inv c (total o) t
      → Inv d n (record t { queued = t.queued - 1; scheduled = 0 })
  dequeued-Inv c d n t e f q v = ground arith

  dequeued_alive : (c : ℕ) (t : Task) → 0 < t.queued → Inv c (total o) t → t.frees ≡ 0
  dequeued_alive c t q v = ground arith

  run_dpc_lem :
      (rounds c : ℕ) (t : Task)
      → t.frees ≡ 0
      → run_dpc rc kernel cpu settings clock future drop_acts rounds t
        ≡ (if t.completed == 0
              then run_task rc kernel cpu settings clock future drop_acts rounds
              else release rc >> pure skipped)
            (record t { queued = t.queued - 1; scheduled = 0 })
  unfolding run_dpc dpc_routine header
  run_dpc_lem rounds c t e = ground (arith, e)

  same : (i : ℕ) → after skipped i ≡ total o
  same i = rw obeys.begins (omega (arith, idle))

  skip :
      (t : Task)
      → Inv 1 (suc (total o)) t
      → Returns (λ e s. (i : ℕ) × Inv (stage_of e) (after e i) s) ((release rc >> pure skipped) t)
  skip t v =
      Returns-bind (λ _ s. Inv 1 (total o) s) (λ e s. (i : ℕ) × Inv (stage_of e) (after e i) s) _ _
        (release-Inv rc kernel 1 (total o) t v (omega (arith, room, fits)))
        (λ _ s w. (0, rw (same 0) w))

  pub run_dpc-Inv :
      (rounds c : ℕ) (t : Task)
      → 0 < t.queued
      → Inv c (total o) t
      → Returns
          (λ e s. (i : ℕ) × Inv (stage_of e) (after e i) s)
          (run_dpc rc kernel cpu settings clock future drop_acts rounds t)
  run_dpc-Inv rounds c t q v =
      rw (run_dpc_lem rounds c t (dequeued_alive c t q v)) (elim (Bool-cases (t.completed == 0)) [
        | inl running ↦ rw running (
            run_task-Ran rc kernel cpu cap room settings clock future drop_acts
              (record o { running = 2 }) start_le refl obeys rounds _
              (dequeued-Inv c 0 _ t (omega (arith, idle)) (ground (arith, running)) q v))
        | inr done ↦ rw done (skip _ (dequeued-Inv c 1 _ t refl (ground (arith, done)) q v))
      ])
