-- ===== src/Executor/WorkItem/Finish.antt =====
-- The end of a run of a work-item task (src/executor.rs): the future completes, the work item is
-- deleted, and the run's reference released.
use kcom_rs.Prelude.{
  ℕ, suc, ◌+◌, ◌<◌, ◌≡◌, refl, Bool, false, Option, none, some, List, [], ◌∷◌, ◌>>=◌, ◌>>◌, arith,
  Returns, Returns-map,
}
use kcom_rs.RefCount.{RefCounter}
use kcom_rs.Executor.WorkItem.{
  Task, TaskContext, header, tracker_complete, release, complete, or_else, is_deleted,
  delete_work_item, finish_run,
}
use kcom_rs.Executor.WorkItem.Inv.{Inv, alive}
use kcom_rs.Executor.WorkItem.Items.{
  Idle, Running, is_deleted-before, Same, Idle-Same, release-Same,
}

-- The task at the end of a run, before the run's reference is released.
abbrev pub with_deleted : Option ℕ → List ℕ → List ℕ
with_deleted none items = items
with_deleted (some item) items = item ∷ items

abbrev pub first_of : Option ℕ → Option ℕ → Option ℕ
first_of none fallback = fallback
first_of (some item) fallback = some item

abbrev pub closed : Option ℕ → Task → Task
closed fallback t = record t {
  work_item = none;
  deleted = with_deleted (first_of t.work_item fallback) t.deleted;
  tracker_completes = t.tracker_completes + 1;
}

-- Whether the item that a run deletes was deleted before.
abbrev pub is_freed : Option ℕ → List ℕ → Bool
is_freed none items = false
is_freed (some item) items = is_deleted item items

-- While a run polls: the task has not completed, and item `k` is its only one.
abbrev pub Polling : TaskContext → (r n k : ℕ) → Task → Type 0
Polling context r n k t = Inv context r n t × (Running k t × (t.completed ≡ 0))

-- After the poll.
abbrev pub Polled : TaskContext → (r n k : ℕ) → Task → Type 0
Polled context r n k t = Inv context r n t × Running k t

module _ (rc : RefCounter) (context : TaskContext) where
  delete_work_item_lem :
      (item : Option ℕ) (t : Task)
      → is_freed item t.deleted ≡ false
      → delete_work_item rc context item t
        ≡ some (tt, record t { deleted = with_deleted item t.deleted })
  unfolding delete_work_item
  delete_work_item_lem none t h = refl
  delete_work_item_lem (some item) t h = rw h refl

  or_else_lem :
      (item fallback : Option ℕ) → or_else rc context item fallback ≡ first_of item fallback
  unfolding or_else
  or_else_lem none fallback = refl
  or_else_lem (some item) fallback = refl

  header_lem : (t : Task) → t.frees ≡ 0 → header t ≡ some (t, t)
  unfolding header
  header_lem t e = rw e refl

  pub finish_run_lem :
      (fallback : Option ℕ) (t : Task)
      → t.frees ≡ 0
      → is_freed (first_of t.work_item fallback) t.deleted ≡ false
      → finish_run rc context fallback t ≡ release rc context (closed fallback t)
  unfolding finish_run tracker_complete
  finish_run_lem fallback t e h =
      rw
        (
          ◌>>◌,
          ◌>>=◌,
          header_lem t e,
          or_else_lem t.work_item fallback,
          delete_work_item_lem (first_of t.work_item fallback) (record t { work_item = none }) h,
          ◌>>◌,
          ◌>>=◌,
        )
        refl

module _ (rc : RefCounter) (context : TaskContext) (r n : ℕ) (room : n + 4 < rc.limit) (k : ℕ) where
  closed-Inv :
      (fallback : Option ℕ) (t : Task)
      → Inv context (suc r) (suc n) t
      → Inv context r (suc n) (closed fallback t)
  closed-Inv fallback t v = ground arith

  closed-Idle : (fallback : Option ℕ) (t : Task) → Running k t → Idle (closed fallback t)
  closed-Idle fallback t (q, w, m, d) = (q, refl, rw (w, m, d) refl)

  pub finish_run-Idle :
      (fallback : Option ℕ) (t : Task)
      → Polled context (suc r) (suc n) k t
      → Returns (λ _ u. Inv context r n u × Idle u) (finish_run rc context fallback t)
  finish_run-Idle fallback t (v, (q, w, m, d)) =
      rw
        (finish_run_lem rc context fallback t (alive context (suc r) n t v)
          (rw (w, d) (is_deleted-before k k (omega arith))))
        (Returns-map (λ _ u. Inv context r n u × Same (closed fallback t) u)
          (λ _ u. Inv context r n u × Idle u)
          (λ _ u p.
            (p.0, Idle-Same (closed fallback t) u p.1 (closed-Idle fallback t (q, w, m, d))))
          _
          (release-Same rc context r n (closed fallback t) (closed-Inv fallback t v)
            (omega (arith, room))))

  pub complete-Polled :
      (m : ℕ) (t : Task)
      → Polling context (suc r) (suc m) k t
      → Returns (λ _ u. Polled context (suc r) (suc m) k u) (complete rc context t)
  unfolding complete header
  complete-Polled m t (v, (i, e)) =
      rw (complete_lem t (alive context (suc r) m t v)) (completed-Inv m t v e, i)
    where
      complete_lem :
          (t : Task)
          → t.frees ≡ 0
          → complete rc context t
            ≡ some (tt, record t { completed = 1; future_drops = t.future_drops + 1 })
      complete_lem t e = ground (arith, e)

      completed-Inv :
          (m : ℕ) (t : Task)
          → Inv context (suc r) (suc m) t
          → t.completed ≡ 0
          → Inv context
              (suc r)
              (suc m)
              (record t { completed = 1; future_drops = t.future_drops + 1 })
      completed-Inv m t v e = ground (arith, e)

  pub fits_at :
      (m : ℕ) (t : Task) → Inv context (suc r) (suc m) t → m + 2 < rc.limit → t.ref_count < rc.limit
  fits_at m t v h = omega (arith, v.counted, v.exact, v.single, h)

  pub dequeued-Inv :
      (t : Task)
      → t.queue ≡ k ∷ []
      → Inv context r n t
      → Inv context (suc r) (suc n) (record t { queue = []; scheduled = 0 })
  dequeued-Inv t e v = ground (arith, e)
