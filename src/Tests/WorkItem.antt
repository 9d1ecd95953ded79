-- ===== src/Tests/WorkItem.antt =====
-- Examples for the work-item tasks of src/executor.rs.
use kcom_rs.Prelude.{
  ◌≡◌, refl, true, false, none, some, [], ◌∷◌, M, pure, Poll, ready, pending, ◌>>◌, arith,
}
use kcom_rs.RefCount.{hardened}
use kcom_rs.RefCount.Laws.{counter}
use kcom_rs.Status.{status_success, status_insufficient_resources}
use kcom_rs.Executor.WorkItem.{clone_raw, Task, TaskContext, run_next}
use kcom_rs.Executor.WorkItem.Contexts.{kmdf, Io, Answer, Created, create_work_item, create_lem}
use kcom_rs.Executor.WorkItem.Inv.{Inv, Keeps}
use kcom_rs.Executor.WorkItem.Uses.{cancel_handle, perform, use-Inv}
use kcom_rs.Executor.WorkItem.Overwrite.{wakes_itself, started, run-overwrites}
use kcom_rs.Executor.WorkItem.Spawn.{
  queued_task, dropped_task, spawn_task, spawn_task_cancellable, spawn_task_lem,
}

abbrev context : TaskContext
context = record { is_valid = true; create_work_item = λ item. status_success }

abbrev poor : TaskContext
poor = record { is_valid = true; create_work_item = λ item. status_insufficient_resources }

queued-Inv : Inv context 0 1 (queued_task 2)
queued-Inv = record {
  counted = refl;
  exact = refl;
  single = omega arith;
  tracked = refl;
  freed = refl;
  released = refl;
  dropped = refl;
  flag = omega arith;
}

abbrev at_once : M Task (Poll (Unit {0}))
at_once = pure (ready tt)

-- A poll that keeps a clone of its waker.
abbrev waits : M Task (Poll (Unit {0}))
waits = clone_raw (counter hardened) context true >> pure pending

use-Inv_example :
    Keeps context 0 1 (perform (counter hardened) context cancel_handle (queued_task 2))
use-Inv_example =
    use-Inv (counter hardened) context 0 0 (queued_task 2) cancel_handle queued-Inv (omega arith)

run-overwrites_example :
    (u : Task) × ((run_next
          (counter hardened)
          context
          (wakes_itself (counter hardened) context)
          false
          (record (started 1 (queued_task 1)) { scheduled = 1; queue = 0 ∷ [] })
        ≡ some (tt, u))
      × ((u.queue ≡ 1 ∷ [])
          × ((u.deleted ≡ 1 ∷ [])
              × ((u.work_item ≡ none)
                  × (run_next (counter hardened) context at_once false u ≡ none)))))
run-overwrites_example =
    run-overwrites (counter hardened) context 1 (queued_task 1) (omega arith) refl refl 0 false
      at_once refl refl

spawn_task_lem_example :
    (spawn_task (counter hardened) poor true
      ≡ some (status_insufficient_resources, some dropped_task))
    × (spawn_task_cancellable (counter hardened) poor true
        ≡ some (status_insufficient_resources, some dropped_task))
spawn_task_lem_example = spawn_task_lem (counter hardened) poor (omega arith) true

abbrev io : Io
io = record { device_refs = 1; items = 5 ∷ []; queue = []; task_of = λ item. 0 }

-- The framework makes an item, but it has no context of the type.
abbrev untyped : Answer
untyped = record { status = status_success; item = 6; typed = false }

create_lem_example : Created 0 io (create_work_item kmdf 4096 64 untyped 0 io)
create_lem_example = create_lem kmdf 4096 64 untyped (λ s e. ground (arith, e)) 0 io
