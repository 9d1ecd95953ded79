-- ===== src/Executor/WorkItem/Run.antt =====
-- A run of a work-item task (src/executor.rs), from the kernel's queue to its end.
use kcom_rs.Executor.WorkItem.Inv.{Inv}
