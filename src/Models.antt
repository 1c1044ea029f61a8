-- ===== src/Models.antt =====
-- app/models.py: the rows of the database, and the queries and updates that the session offers.
-- Ids are texts, times are numbers, sizes in bytes are not negative. A primary key names one row, so
-- an update by key changes the first row that has it.
pub mod Rows
use all_debrid_proxy.Base.{
  ℕ, ◌≡◌, Bool, true, false, Option, none, some, List, [], ◌∷◌, ◌==◌, if◌then◌else◌, Text, text_eq,
  find, filter, All,
}
use all_debrid_proxy.Constants.{Status, FileState, Mode, SourceType, Role}

pub record Task : Type 0 where
  pub id : Text
  pub user_id : Option ℕ
  pub label : Option Text
  pub mode : Mode
  pub source : Text
  pub source_type : SourceType
  pub infohash : Text
  pub provider_ref : Option Text
  pub status : Status
  pub created_at : ℕ
  pub updated_at : ℕ

pub record TaskFile : Type 0 where
  pub id : Text
  pub task_id : Text
  pub index : ℕ
  pub name : Text
  pub size_bytes : Option ℕ
  pub state : FileState
  pub bytes_downloaded : ℕ
  pub speed_bps : ℕ
  pub eta_seconds : Option ℕ
  pub progress_pct : ℕ
  pub last_progress_at : Option ℕ
  pub local_path : Option Text
  pub unlocked_url : Option Text

pub record User : Type 0 where
  pub id : ℕ
  pub username : Text
  pub password_hash : Text
  pub is_admin : Bool
  pub role : Role
  pub created_at : ℕ
  pub last_login : Option ℕ

pub record UserStats : Type 0 where
  pub user_id : ℕ
  pub total_downloads : ℕ
  pub total_magnets_processed : ℕ
  pub total_bytes_downloaded : ℕ

pub record Db : Type 0 where
  pub tasks : List Task
  pub files : List TaskFile
  pub users : List User
  pub stats : List UserStats

-- `size_bytes or 0`
abbrev pub or_zero : Option ℕ → ℕ
or_zero none = 0
or_zero (some n) = n

module _ {ℓ} {R : Type ℓ} where
  -- An update of the first row that the test finds.
  unfoldable pub update_first : (R → Bool) → (R → R) → List R → List R
  update_first p f [] = []
  update_first p f (r ∷ rs) = if p r then f r ∷ rs else r ∷ update_first p f rs

abbrev pub has_task_id : Text → Task → Bool
has_task_id id t = text_eq t.id id

abbrev pub has_file_id : Text → TaskFile → Bool
has_file_id id f = text_eq f.id id

-- `TaskFile.task_id == id`
abbrev pub file_of : Text → TaskFile → Bool
file_of id f = text_eq f.task_id id

-- `session.get(Task, id)`
unfoldable pub get_task : Text → Db → Option Task
get_task id db = find (has_task_id id) db.tasks

unfoldable pub get_file : Text → List TaskFile → Option TaskFile
get_file id files = find (has_file_id id) files

-- `select(TaskFile).where(TaskFile.task_id == id)`
unfoldable pub files_of : Text → Db → List TaskFile
files_of id db = filter (file_of id) db.files

-- `task.status = status`, committed
unfoldable pub set_status : Text → Status → Db → Db
unfolding update_first
set_status id status db = record db {
  tasks = update_first (has_task_id id) (λ t. record t { status = status }) db.tasks;
}

-- attributes of one file set, committed
unfoldable pub update_file : Text → (TaskFile → TaskFile) → Db → Db
unfolding update_first
update_file id f db = record db { files = update_first (has_file_id id) f db.files }
