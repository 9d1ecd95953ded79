-- ===== src/Executor/WorkItem/Uses.antt =====
-- What the owners of wakers and cancel handles do with a work-item task (src/executor.rs).
use kcom_rs.Prelude.{ℕ, suc, ◌+◌, ◌<◌, true, M, Returns-bind}
use kcom_rs.RefCount.{RefCounter}
use kcom_rs.Executor.WorkItem.{
  Task, TaskContext, clone_raw, wake_raw, wake_by_ref_raw, drop_raw, handle_clone, handle_cancel,
  handle_drop,
}
use kcom_rs.Executor.WorkItem.Inv.{Inv, Keeps, add_ref-Inv, release-Inv, schedule-Inv, cancel-Inv}

pub data Use : Type 0 where
  clone_waker wake wake_by_ref drop_waker clone_handle cancel_handle drop_handle : Use

abbrev pub perform : RefCounter → TaskContext → Use → M Task (Unit {0})
perform rc context clone_waker = clone_raw rc context true
perform rc context wake = wake_raw rc context true
perform rc context wake_by_ref = wake_by_ref_raw rc context true
perform rc context drop_waker = drop_raw rc context true
perform rc context clone_handle = handle_clone rc context true
perform rc context cancel_handle = handle_cancel rc context true
perform rc context drop_handle = handle_drop rc context true

-- The references after a use by the owner of one of `n + 1`.
abbrev pub references : Use → ℕ → ℕ
references clone_waker n = suc (suc n)
references wake n = n
references wake_by_ref n = suc n
references drop_waker n = n
references clone_handle n = suc (suc n)
references cancel_handle n = suc n
references drop_handle n = n

-- Every use of a waker or handle by an owner of a reference returns, without touching freed memory, and
-- keeps the invariant, with the references counted as ownership does, if they are fewer than the
-- counter's limit by more than two.
pub use-Inv :
    (rc : RefCounter) (context : TaskContext) (r n : ℕ) (t : Task) (u : Use)
    → Inv context r (suc n) t
    → n + 2 < rc.limit
    → Keeps context r (references u n) (perform rc context u t)
unfolding clone_raw wake_raw wake_by_ref_raw drop_raw handle_clone handle_cancel handle_drop
use-Inv rc context r n t clone_waker v room = add_ref-Inv rc context r n t v room
use-Inv rc context r n t wake v room =
    Returns-bind (λ _ s. Inv context r (suc n) s) (λ _ s. Inv context r n s) _ _
      (Returns-bind (λ _ s. Inv context r (suc n) s) (λ _ s. Inv context r (suc n) s) _ _
        (schedule-Inv rc context r n t v room) (λ _ s w. w))
      (λ _ s w. release-Inv rc context r n s w room)
use-Inv rc context r n t wake_by_ref v room =
    Returns-bind (λ _ s. Inv context r (suc n) s) (λ _ s. Inv context r (suc n) s) _ _
      (schedule-Inv rc context r n t v room) (λ _ s w. w)
use-Inv rc context r n t drop_waker v room = release-Inv rc context r n t v room
use-Inv rc context r n t clone_handle v room = add_ref-Inv rc context r n t v room
use-Inv rc context r n t cancel_handle v room = cancel-Inv rc context r n t v room
use-Inv rc context r n t drop_handle v room = release-Inv rc context r n t v room
