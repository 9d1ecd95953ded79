-- ===== src/Tests.antt =====
-- Examples: the theorems of the other files at concrete inputs.
pub mod Async
pub mod Com
pub mod Dpc
pub mod Executor
pub mod Objects
pub mod Memory
pub mod Pool
pub mod Text
pub mod Timer
pub mod WorkItem
