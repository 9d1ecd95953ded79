-- ===== src/Lib.antt =====
-- A verification library for kcom-rs, a Rust library of COM-style objects and asynchronous tasks for
-- Windows kernel drivers.
--
-- The program's parts, and the files that model them:
--
--   * src/iunknown.rs, status codes and results: Status. `Status::to_result` is `to_result`, and so on;
--     an `NTSTATUS` is its 32-bit pattern.
--   * src/refcount.rs, the reference counter that objects and tasks share: RefCount. `add` and `sub` are
--     functions of the build; RefCounter is the interface that the tasks use, filled by
--     RefCount.Laws.counter for each build.
--   * src/task.rs, futures with cleanup: Task. `Cancellable::poll` is `poll`, its loop `poll_loop` with
--     two rounds, which are enough since only a cancellation goes round again; the inner futures are
--     parameters.
--   * src/executor.rs: Tracker has `TaskTracker` and `WorkItemTracker`, which have the same code, alone and
--     with their steps interleaved; Executor.Budget the limits on one run; Executor.Cpu the index of a
--     processor; Executor.Dpc the tasks. `TaskHeader` is the record Executor.Dpc.Task, its functions
--     (`add_ref`, `release`, `schedule`, `queue_dpc`, `cancel`, the waker functions) and those of
--     `CancelHandle` are computations on it that stop at an access to freed memory; `dpc_routine` is in
--     Executor.Dpc.Routine. What the future and the other owners of wakers and handles do during a poll
--     is a list of acts; Executor.Dpc.Owners says which acts ownership allows. The loop runs on a number
--     of rounds, and Executor.Dpc.Rounds shows that one more than the budget is enough. A clock, the
--     kernel's queue and the number of the processor are parameters. Executor.WorkItem has
--     `WorkItemTask` in the same way, with the work items that its context creates; the context is a
--     parameter, and the future's poll is any computation that keeps the invariant and makes no work item.
--     An item that was deleted counts as freed memory. Executor.WorkItem.Items says which items are in
--     use, and Executor.WorkItem.Tidy follows them through the uses of wakers and handles.
--     Executor.Host has the stubs of builds without the kernel.
--     Executor.WorkItem.Contexts has the two contexts that the library brings, for WDM and KMDF.
--     Executor.Timer has `KernelTimerInner` and `KernelTimerFuture`: the poll, the routine and the
--     destructor are sequences of steps, which events interleave; the kernel's timer is a record of
--     operations and laws, which Tests.Timer fills.
--   * src/unicode.rs: Utf16 has the language's encoding and decoding, Unicode the `UNICODE_STRING` and its
--     conversions, Unicode.Owned and Unicode.Local the two string types. A string is the list of its
--     characters. `none` is a read or write outside a buffer. The allocator is a parameter.
--   * src/allocator.rs: Allocator has `WdkAllocator` in its three builds on a 64-bit machine, with the
--     layout of its headers in memory. The kernel's pool is a parameter. Allocator.Resolve has the search
--     for `ExAllocatePool2` by threads that interleave, Allocator.Served `ex_allocate_pool` and
--     `ex_allocate_pool_uninitialized`, Allocator.Interface the trait `Allocator`, and Allocator.KBox
--     `KBox` and its initialisers over it; Allocator.KBox.Wdk shows that `WdkAllocator` fills the trait.
--   * src/async_com.rs: AsyncCom has `AsyncOperationTask` as a record, its stores one by one and its
--     readers; AsyncCom.Object the object that holds it, with `shim_add_ref` and `shim_release` of
--     src/wrapper.rs for an object without an outer object, the `async` block of `spawn_raw_cancellable`
--     as a state machine, and the spawning. The allocation, the executor and the future are parameters.
--   * src/wrapper.rs, the COM objects: Com has `ComObjectN` as a record with a list of secondary
--     entries, of which `ComObject` has none, the pointers to it, and the constructors; Com.Count the count,
--     its delegation and the end of the object; Com.Methods the methods in the vtables, which take a
--     pointer and find the object through it. The primary and non-delegating methods of both types have
--     the same code and one model; the query through a secondary interface has a model of its own. Other objects are a state with the methods of `IUnknown`, which is a
--     parameter, as are the allocation, the destructor's calls on its own object, and the method
--     `query_interface` of the type. A method returns, halts on purpose, or is undefined (Com.Run).
--   * src/macros/impl_interface.rs, src/traits.rs, src/vtable.rs: Com.Interfaces has the
--     `query_interface` methods that the macros write, as functions of the interfaces' identifiers.
--   * src/smart_ptr.rs: Com.Rc has `ComRc`.
--
-- Tests has examples at concrete inputs.
--
-- The tasks use the counter through its interface, the tracker is told of a task's end by `release`, a
-- run of `dpc_routine` asks the budget, and futures of src/task.rs ask the running task for a
-- cancellation request. The task of an async operation is a future of src/task.rs inside. COM
-- objects count with the counter, and a `ComRc` calls the methods of an object through its pointer.
--
-- Not modelled: memory orderings (each atomic operation is one step of a sequence), overlapping runs of
-- `dpc_routine` beyond Executor.Dpc.Overlap, the macros that generate vtables and descriptors, and
-- the bindings of the kernel.
pub mod Prelude
pub mod Status
pub mod RefCount
pub mod Task
pub mod Tracker
pub mod Executor
pub mod Utf16
pub mod Unicode
pub mod Allocator
pub mod AsyncCom
pub mod Com
pub mod Tests
