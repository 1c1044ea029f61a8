-- ===== src/Scheduler.antt =====
-- worker/scheduler.py: the disk space that tasks reserve, and the test that lets a task go on.
pub mod Space
use all_debrid_proxy.Base.{
  ℕ, ◌+◌, ◌-◌, ◌*◌, Bool, ◌&&◌, ◌||◌, List, ◌∷◌, leb, if◌then◌else◌, Text, length, filter, sum_of,
  count_if,
}
use all_debrid_proxy.Constants
use all_debrid_proxy.Constants.{FileState, file_state_eq, in_reserved_states}
use all_debrid_proxy.Models.{Db, TaskFile, or_zero, files_of}

-- The settings of app/config.py that the worker reads.
pub record Settings : Type 0 where
  pub low_space_floor_gb : ℕ
  pub per_task_max_active : ℕ
  pub per_task_max_queued : ℕ
  pub retention_seconds : ℕ

unfoldable pub task_total_size : Text → Db → ℕ
task_total_size id db = sum_of (λ f. or_zero f.size_bytes) (files_of id db)

-- `max(sz - have, 0)` for a file in a reserving state: subtraction on ℕ stops at 0.
unfoldable pub reserved_of : TaskFile → ℕ
reserved_of f = if in_reserved_states f.state then or_zero f.size_bytes - f.bytes_downloaded else 0

unfoldable pub reserved_bytes_for_task : Text → Db → ℕ
unfolding reserved_of
reserved_bytes_for_task id db = sum_of reserved_of (files_of id db)

unfoldable pub global_reserved_bytes : Db → ℕ
unfolding reserved_bytes_for_task
global_reserved_bytes db = sum_of (λ t. reserved_bytes_for_task t.id db) db.tasks

abbrev pub low_floor : Settings → ℕ
low_floor settings = settings.low_space_floor_gb * 1024 * 1024 * 1024

-- `free - global_rsv >= need` compares integers, of which the left one may be negative, so the sum
-- stands on the other side here. `need` is a sum less a
-- part of it.
unfoldable pub can_start_task : Settings → ℕ → Text → Db → Bool
unfolding task_total_size reserved_bytes_for_task global_reserved_bytes
can_start_task settings free id db =
    let need = task_total_size id db - reserved_bytes_for_task id db in
    leb (global_reserved_bytes db + need) free && leb (low_floor settings) free

abbrev pub is_downloading : TaskFile → Bool
is_downloading f = file_state_eq f.state FileState.downloading

abbrev pub is_waiting : TaskFile → Bool
is_waiting f = file_state_eq f.state FileState.listed || file_state_eq f.state FileState.selected

unfoldable pub count_active_and_queued : Text → Db → ℕ × ℕ
count_active_and_queued id db =
    (length (filter is_downloading (files_of id db)), length (filter is_waiting (files_of id db)))
