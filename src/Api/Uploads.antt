-- ===== src/Api/Uploads.antt =====
-- `upload_file_task` of app/api.py. The folder of the new task is part of the result, since the handler
-- has to clean it up when it raises; the log and the metadata file are left out. `now`, `task_id`,
-- `file_id` and `identifier` are the clock, the two `uuid.uuid4()` and the SHA-256 digest.
pub mod Names
pub mod Laws
use all_debrid_proxy.Base.{
  ℕ, ◌+◌, Bool, true, false, not, ◌&&◌, ◌||◌, Option, none, some, List, [], ◌∷◌, ◌++◌, ltb,
  if◌then◌else◌, Text, codes, is_empty, text_eq, starts_with, ℤ, length, any, ◌==◌, Result, ok, err,
}
use all_debrid_proxy.Base.Unicode.{Unicode}
use all_debrid_proxy.Constants
use all_debrid_proxy.Constants.{Status, FileState, SourceType, Mode, max_upload_file_size}
use all_debrid_proxy.Models.{Db, User, Task, TaskFile, update_first}
use all_debrid_proxy.World
use all_debrid_proxy.World.{World, Event, publish}
use all_debrid_proxy.Validation.Names.{validate_label}
use all_debrid_proxy.Api.Errors
use all_debrid_proxy.Api.Errors.{HttpError, Response}
use all_debrid_proxy.Api.Tasks.{or_400, checked_label, checked_user, count_task}
use all_debrid_proxy.Api.Uploads.Names.{safe_name}

-- The folder of the task: not there, or there with its files by name.
pub data Folder : Type 0 where
  absent : Folder
  present : List (Text × Text) → Folder

-- A read of the file, 1 MB at most: the bytes, of which none mean its end, or `none` where it raises.
abbrev pub Read : Type 0
Read = Option Text

-- The loop that writes the bytes to the temporary file: what has been written, or what it raises.
unfoldable pub receive : List Read → ℕ → Text → Response (ℕ × Text)
receive [] file_size written = ok (file_size, written)
receive (none ∷ reads) file_size written = err HttpError.save_failed
receive (some [] ∷ reads) file_size written = ok (file_size, written)
receive (some (c ∷ s) ∷ reads) file_size written =
    let size = file_size + length (c ∷ s) in
    let rest = receive reads size (written ++ (c ∷ s)) in
    if ltb max_upload_file_size size then err HttpError.too_large else rest

pub record Upload : Type 0 where
  pub original_filename : Text
  pub reads : List Read
  pub label : Option Text
  pub user_id : Option ℤ

-- `label or original_filename`
abbrev pub label_or : Option Text → Text → Text
label_or (some (c ∷ s)) name = c ∷ s
label_or _ name = name

abbrev pub uploaded_task : Upload → Option Text → Option ℕ → Text → Text → ℕ → Task
uploaded_task up label user task_id identifier now = record {
  id = task_id;
  user_id = user;
  label = some (label_or label up.original_filename);
  mode = Mode.auto;
  source = codes "upload://" ++ up.original_filename;
  source_type = SourceType.upload;
  infohash = identifier;
  provider_ref = none;
  status = Status.completed;
  created_at = now;
  updated_at = now;
}

abbrev pub uploaded_file : Text → Text → Text → ℕ → TaskFile
uploaded_file task_id file_id name size = record {
  id = file_id;
  task_id = task_id;
  index = 0;
  name = name;
  size_bytes = some size;
  state = FileState.done;
  bytes_downloaded = size;
  speed_bps = 0;
  eta_seconds = none;
  progress_pct = 0;
  last_progress_at = none;
  local_path = some name;
  unlocked_url = none;
}

unfoldable pub store_upload : Task → TaskFile → World → World
unfolding update_first
store_upload t f w = publish t.id (Event.state Status.completed none) (record w {
  db = record w.db {
    tasks = w.db.tasks ++ (t ∷ []);
    files = w.db.files ++ (f ∷ []);
    stats = count_task t.user_id w.db.stats;
  };
})

pub record Uploaded : Type 0 where
  pub task_id : Text
  pub filename : Text
  pub size : ℕ

-- What the handler returns or raises, the world, and the folder that it leaves.
pub record Outcome : Type 0 where
  pub result : Response Uploaded
  pub world : World
  pub folder : Folder

abbrev pub cleaned_up : HttpError → World → Outcome
cleaned_up e w = record { result = err e; world = w; folder = Folder.absent }

-- The ids that the handler draws, and the clock.
pub record Drawn : Type 0 where
  pub task_id : Text
  pub file_id : Text
  pub identifier : Text
  pub now : ℕ

-- The foreign key of `task.user_id`: no user, or one with a row.
abbrev pub is_known_user : Option ℕ → Db → Bool
is_known_user none db = true
is_known_user (some user) db = any (λ (u : User). u.id == user) db.users

-- The part after the file is on the disk. A commit that breaks the foreign key raises, is rolled back, and is
-- caught nowhere, so that the folder stays.
abbrev pub finish_upload :
    Upload → Drawn → Text → ℕ → Text → Option Text → Option ℕ → World → Outcome
unfolding store_upload
finish_upload up d name size bytes label user w =
    if is_known_user user w.db
    then record {
      result = ok (record { task_id = d.task_id; filename = name; size = size });
      world =
          store_upload (uploaded_task up label user d.task_id d.identifier d.now)
            (uploaded_file d.task_id d.file_id name size) w;
      folder = Folder.present ((name, bytes) ∷ []);
    }
    else record {
      result = err HttpError.server_error;
      world = w;
      folder = Folder.present ((name, bytes) ∷ []);
    }

abbrev pub check_user : Upload → Drawn → Text → ℕ → Text → Option Text → World → Outcome
unfolding store_upload
check_user up d name size bytes label w = elim (or_400 (checked_user up.user_id)) [
  | err e ↦ cleaned_up e w
  | ok user ↦ finish_upload up d name size bytes label user w
]

abbrev pub check_label : Upload → Drawn → Text → ℕ → Text → World → Outcome
unfolding store_upload validate_label
check_label up d name size bytes w = elim (or_400 (checked_label up.label)) [
  | err e ↦ cleaned_up e w
  | ok label ↦ check_user up d name size bytes label w
]

unfoldable pub upload_file_task : Unicode → Drawn → Upload → World → Outcome
unfolding safe_name receive store_upload validate_label
upload_file_task U d up w =
    if is_empty up.original_filename
    then cleaned_up HttpError.no_file w
    else elim (receive up.reads 0 []) [
      | err e ↦ cleaned_up e w
      | ok (size, bytes) ↦ check_label up d (safe_name U up.original_filename d.now) size bytes w
    ]
