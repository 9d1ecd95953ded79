-- ===== src/Executor.antt =====
-- src/executor.rs: the executors. Each child models one of them.
pub mod Timer
pub mod Budget
pub mod Cpu
pub mod Host
pub mod Dpc
pub mod WorkItem
