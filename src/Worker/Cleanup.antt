-- ===== src/Worker/Cleanup.antt =====
-- `_retention_cleanup_loop` of worker/worker.py: one cycle. Directories and the log are left out.
pub mod Laws
use all_debrid_proxy.Base.{
  ℕ, ◌+◌, ◌-◌, Bool, true, false, not, ◌&&◌, ◌||◌, List, [], ◌∷◌, map, ltb, if◌then◌else◌, Text,
  text_eq, filter, any,
}
use all_debrid_proxy.Constants
use all_debrid_proxy.Constants.{Status, in_completed_statuses, status_eq}
use all_debrid_proxy.Models.{Db, Task, TaskFile, has_task_id, file_of}
use all_debrid_proxy.World.{World}

-- `PURGE_STATUSES`
abbrev pub is_purgeable : Status → Bool
is_purgeable s = in_completed_statuses s || status_eq s Status.failed || status_eq s Status.canceled

-- The `where` clauses of the query, with `updated_at < now - retention`
abbrev pub is_expired : ℕ → ℕ → Task → Bool
is_expired retention now t = is_purgeable t.status && ltb (t.updated_at + retention) now

-- `session.delete(task)` with the cascade to its files
unfoldable pub delete_tasks : (Task → Bool) → Db → Db
delete_tasks gone db = record db {
  tasks = filter (λ t. not (gone t)) db.tasks;
  files = filter (λ f. not (any (λ t. gone t && text_eq t.id f.task_id) db.tasks)) db.files;
}

-- A cycle; `commits` is false where the commit raises and the session is rolled back.
unfoldable pub cleanup_cycle : ℕ → ℕ → Bool → World → World
unfolding delete_tasks
cleanup_cycle retention now commits w =
    if commits then record w { db = delete_tasks (is_expired retention now) w.db } else w
