-- ===== src/Executor/Host.antt =====
-- src/executor.rs: the stubs of builds without the kernel, which poll a future once with a waker that
-- does nothing.
use kcom_rs.Prelude.{ℕ, zero, suc, ◌+◌, ◌≡◌, refl, Bool, true, false, arith, Poll, ready, pending}
use kcom_rs.Status.{NtStatus, status_success}

-- `CancelHandle`: whether it holds the future, and how often the future was polled and dropped.
pub record CancelHandle : Type 0 where
  pub cancelled : Bool
  pub future : Bool
  pub polls : ℕ
  pub drops : ℕ

-- `self.future.borrow_mut().take()`, whose result is dropped.
taken : Bool → CancelHandle → CancelHandle
taken true h = record h { future = false; drops = h.drops + 1 }
taken false h = h

-- `spawn_dpc_task_cancellable`: a ready future is dropped when the function returns.
unfoldable pub spawn_dpc_task_on_host : Poll NtStatus → CancelHandle
spawn_dpc_task_on_host (ready status) = record {
  cancelled = false;
  future = false;
  polls = 1;
  drops = 1;
}
spawn_dpc_task_on_host pending = record { cancelled = false; future = true; polls = 1; drops = 0 }

unfoldable pub cancel : CancelHandle → CancelHandle
unfolding taken
cancel h = taken h.future (record h { cancelled = true })

unfoldable pub is_cancelled : CancelHandle → Bool
is_cancelled h = h.cancelled

unfoldable pub drop_host_handle : CancelHandle → CancelHandle
unfolding taken
drop_host_handle h = taken h.future h

-- `spawn_task`: the status, and how often the future was polled and dropped.
unfoldable pub spawn_task_on_host : Poll NtStatus → NtStatus × (ℕ × ℕ)
spawn_task_on_host (ready status) = (status_success, (1, 1))
spawn_task_on_host pending = (status_success, (1, 1))

unfoldable pub cancels : ℕ → CancelHandle → CancelHandle
unfolding cancel
cancels zero h = h
cancels (suc n) h = cancels n (cancel h)

abbrev held : Bool → ℕ
held true = 1
held false = 0

-- The future was polled once, and is in the handle or was dropped.
abbrev Sound : CancelHandle → Type 0
Sound h = (h.polls ≡ 1) × (h.drops + held h.future ≡ 1)

taken-Sound :
    (future : Bool) (h : CancelHandle) → h.future ≡ future → Sound h → Sound (taken future h)
unfolding taken
taken-Sound true h e (p, d) = (p, ground (arith, e, d))
taken-Sound false h e (p, d) = (p, d)

cancels-Sound : (n : ℕ) (h : CancelHandle) → Sound h → Sound (cancels n h)
unfolding cancels cancel
cancels-Sound zero h s = s
cancels-Sound (suc n) h s =
    cancels-Sound n (taken h.future (record h { cancelled = true }))
      (taken-Sound h.future (record h { cancelled = true }) refl s)

spawned-Sound : (p : Poll NtStatus) → Sound (spawn_dpc_task_on_host p)
unfolding spawn_dpc_task_on_host
spawned-Sound (ready status) = (refl, refl)
spawned-Sound pending = (refl, refl)

dropped-once :
    (future : Bool) (h : CancelHandle)
    → h.future ≡ future
    → Sound h
    → ((taken future h).polls ≡ 1) × ((taken future h).drops ≡ 1)
unfolding taken
dropped-once true h e (p, d) = (p, ground (arith, e, d))
dropped-once false h e (p, d) = (p, ground (arith, e, d))

-- Whatever the one poll gives and however often the handle is cancelled, when the handle is dropped
-- the future was polled once and dropped exactly once.
pub host_lem :
    (p : Poll NtStatus) (n : ℕ)
    → ((drop_host_handle (cancels n (spawn_dpc_task_on_host p))).polls ≡ 1)
      × ((drop_host_handle (cancels n (spawn_dpc_task_on_host p))).drops ≡ 1)
unfolding drop_host_handle
host_lem p n =
    let h = cancels n (spawn_dpc_task_on_host p) in
    dropped-once h.future h refl (cancels-Sound n (spawn_dpc_task_on_host p) (spawned-Sound p))
