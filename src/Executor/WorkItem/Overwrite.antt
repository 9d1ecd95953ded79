-- ===== src/Executor/WorkItem/Overwrite.antt =====
-- A wake-up during the poll of a work-item task (src/executor.rs).
use kcom_rs.Prelude.{
  ℕ, suc, ◌+◌, ◌<◌, ◌≡◌, refl, ap, ◌∙◌, Bool, true, false, Option, none, some, [], ◌∷◌, ◌==◌,
  if◌then◌else◌, M, ◌>>=◌, ◌>>◌, arith, pure, Poll, pending,
}
use kcom_rs.RefCount.{RefCounter}
use kcom_rs.Status.{status_success}
use kcom_rs.Executor.WorkItem.{
  Task, TaskContext, header, settle, poll_task, finish_run, run, run_next, wake_by_ref_raw,
  drop_raw, schedule, is_deleted,
}
use kcom_rs.Executor.WorkItem.Ops.{status_of, enqueued, add_ref_lem, schedule_lem, release_shared}
use kcom_rs.Executor.WorkItem.Finish.{closed, finish_run_lem}

-- A poll that wakes its own task and is not ready.
unfoldable pub wakes_itself : (rc : RefCounter) (context : TaskContext) → M Task (Poll (Unit {0}))
wakes_itself rc context = wake_by_ref_raw rc context true >> pure pending

-- A task that has started to run its item, with `n` references that others hold.
abbrev pub started : (n : ℕ) → Task → Task
started n t = record t {
  ref_count = suc n;
  scheduled = 0;
  completed = 0;
  cancel_requested = 0;
  queue = [];
  frees = 0;
}

abbrev pub after_poll : (n : ℕ) → Task → Task
after_poll n t = record (enqueued (started n t)) { ref_count = suc (suc n) }

abbrev pub after_run : (n : ℕ) → Option ℕ → Task → Task
after_run n fallback t = record (closed fallback (after_poll n t)) { ref_count = suc n }

module _ (rc : RefCounter) (context : TaskContext) (n : ℕ) (t : Task) (room : n + 4 < rc.limit)
    (made : status_of context t.created ≡ status_success) where
  success_lem : (status_of context t.created == status_success) ≡ true
  success_lem = ground (arith, made)

  abbrev lent : Task
  lent = record (started n t) { work_item = t.work_item; ref_count = suc (suc n) }

  woken_lem : schedule rc context lent ≡ some (status_success, enqueued lent)
  woken_lem =
      schedule_lem rc context lent refl (omega (arith, room))
      ∙ rw success_lem (ap (λ s. some (s, enqueued lent)) made)

  during_lem : wakes_itself rc context lent ≡ some (pending, enqueued lent)
  unfolding wakes_itself wake_by_ref_raw
  during_lem = rw (◌>>◌, ◌>>=◌, woken_lem) refl

  poll_task_lem :
      poll_task rc context (wakes_itself rc context) (started n t) ≡ some (tt, after_poll n t)
  unfolding poll_task settle drop_raw
  poll_task_lem =
      rw (◌>>◌, ◌>>=◌, add_ref_lem rc context (started n t) refl (omega (arith, room)), during_lem)
        (release_shared rc context (enqueued lent) refl (suc n) refl (omega (arith, room)))

  module _ (fresh : is_deleted t.created t.deleted ≡ false) where
    finish_lem :
        (fallback : Option ℕ)
        → finish_run rc context fallback (after_poll n t) ≡ some (tt, after_run n fallback t)
    finish_lem fallback =
        finish_run_lem rc context fallback (after_poll n t) refl fresh
        ∙ release_shared rc context (closed fallback (after_poll n t)) refl n refl
            (omega (arith, room))

    rest_lem :
        (fallback : Option ℕ)
        → (poll_task rc context (wakes_itself rc context) >> finish_run rc context fallback)
            (started n t)
          ≡ some (tt, after_run n fallback t)
    rest_lem fallback = rw (◌>>◌, ◌>>=◌, poll_task_lem) (finish_lem fallback)

    next_lem :
        (fallback : Option ℕ) (next : M Task (Poll (Unit {0}))) (kmdf : Bool)
        → run_next rc context next kmdf (after_run n fallback t) ≡ none
    unfolding run_next
    next_lem fallback next kmdf =
        let same : (t.created == t.created) ≡ true = ground arith in rw same refl

    -- A run of a work-item task whose future wakes the task during its poll, and gets a work item for
    -- it, where neither item was deleted before: the new item takes the place of the running one in
    -- `work_item`, so the run deletes the new item, which stays in the kernel's queue, and does not
    -- delete its own. The kernel's next run, whatever the future does, runs an item that was freed.
    pub run-overwrites :
        (item : ℕ) (kmdf : Bool) (next : M Task (Poll (Unit {0})))
        → t.work_item ≡ some item
        → is_deleted item t.deleted ≡ false
        → (u : Task) × ((run_next rc context
                (wakes_itself rc context)
                kmdf
                (record (started n t) { scheduled = 1; queue = item ∷ [] })
              ≡ some (tt, u))
            × ((u.queue ≡ t.created ∷ [])
                × ((u.deleted ≡ t.created ∷ t.deleted)
                    × ((u.work_item ≡ none) × (run_next rc context next kmdf u ≡ none)))))
    unfolding run run_next header
    run-overwrites item kmdf next held running = (
      after_run n (if kmdf then some item else none) t,
      (
        rw running (rest_lem (if kmdf then some item else none)),
        (refl, (refl, (refl, next_lem (if kmdf then some item else none) next kmdf))),
      ),
    )
