-- ===== src/Executor/Cpu.antt =====
-- src/executor.rs: the index of a processor in CURRENT_TASKS.
use kcom_rs.Prelude.{ℕ, ◌+◌, ◌*◌, ◌<◌, ◌≡◌, ◌||◌, Option, none, some, leb, if◌then◌else◌, arith}

abbrev pub max_proc_per_group : ℕ
max_proc_per_group = 64

abbrev pub max_group_count : ℕ
max_group_count = 64

abbrev pub max_cpu_count : ℕ
max_cpu_count = max_proc_per_group * max_group_count

-- `group` and `number` are what `KeGetCurrentProcessorNumberEx` reports.
unfoldable pub current_cpu_index : (group number : ℕ) → Option ℕ
current_cpu_index group number =
    if leb max_group_count group || leb max_proc_per_group number
    then none
    else some (group * max_proc_per_group + number)

-- The index of a processor lies within the table, and two processors with the same index are the same
-- processor.
pub current_cpu_index_lem :
    (g n h m i : ℕ)
    → current_cpu_index g n ≡ some i
    → current_cpu_index h m ≡ some i
    → (i < max_cpu_count) × ((g ≡ h) × (n ≡ m))
unfolding current_cpu_index
current_cpu_index_lem g n h m i e d = (ground arith, (ground arith, ground arith))
