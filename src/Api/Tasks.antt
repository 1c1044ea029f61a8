-- ===== src/Api/Tasks.antt =====
-- The task handlers of app/api.py. Directories, logs and metadata files are left out. A handler answers
-- and leaves a world; what raises leaves the world as it was. The arguments `now`, `new_id` and `sha1`
-- are the clock, `uuid.uuid4()` and the SHA-1 digest in hexadecimal.
pub mod Laws
pub mod Create
pub mod Kept
pub mod Readers
use all_debrid_proxy.Base.{
  ℕ, ◌+◌, ◌<◌, Bool, true, false, not, ◌&&◌, ◌||◌, Option, none, some, List, [], ◌∷◌, ◌++◌, map,
  ltb, ◌==◌, if◌then◌else◌, ℤ, pos, negsuc, Text, codes, is_empty, text_eq, elem_of, find, filter,
  take, drop, length, Result, ok, err, ◌>>=◌, ◌>>◌, raise_if,
}
use all_debrid_proxy.Base.Unicode.{Unicode}
use all_debrid_proxy.Constants
use all_debrid_proxy.Constants.{
  Status, FileState, Mode, SourceType, in_completed_statuses, in_active_statuses, status_eq,
  source_type_eq,
}
use all_debrid_proxy.Models.{
  Db, Task, TaskFile, UserStats, get_task, has_task_id, file_of, update_first, set_status,
}
use all_debrid_proxy.World
use all_debrid_proxy.World.{World, Event, publish, move_task}
use all_debrid_proxy.Validation.Names.{validate_label, validate_positive_int}
use all_debrid_proxy.Validation.Ids.{validate_task_id}
use all_debrid_proxy.Validation.Sources.{validate_source}
use all_debrid_proxy.Validation.Invalid.{Invalid, Validated}
use all_debrid_proxy.Identifiers.{parse_source_identifier}
use all_debrid_proxy.TaskNaming.{UrlLib, generate_task_name}
use all_debrid_proxy.Api.Errors
use all_debrid_proxy.Api.Errors.{HttpError, Response}

-- `except ValidationError as e: raise HTTPException(400)`
abbrev pub or_400 {ℓ} : {A : Type ℓ} → Validated A → Response A
or_400 (ok a) = ok a
or_400 (err e) = err (HttpError.invalid e)

abbrev pub or_error {ℓ} : {A : Type ℓ} → HttpError → Option A → Response A
or_error e none = err e
or_error e (some a) = ok a

-- The library calls that `create_task` makes.
pub record Library : Type 0 where
  pub unicode : Unicode
  pub urls : UrlLib
  pub sha1 : Text → Text

-- `CreateTaskRequest`
pub record CreateTaskRequest : Type 0 where
  pub mode : Mode
  pub source : Text
  pub label : Option Text
  pub user_id : Option ℤ

-- `if req.label: req.label = validate_label(req.label)`
abbrev pub checked_label : Option Text → Validated (Option Text)
unfolding validate_label
checked_label none = ok none
checked_label (some []) = ok (some [])
checked_label (some (c ∷ s)) = validate_label (some (c ∷ s))

-- `if req.user_id: validate_positive_int(req.user_id, "user_id")`, and the id that the row gets
abbrev pub checked_user : Option ℤ → Validated (Option ℕ)
checked_user none = ok none
checked_user (some (pos n)) = ok (some n)
checked_user (some (negsuc n)) = err Invalid.int_negative

-- The validated part of a request: source, type, identifier, label and user.
pub record Checked : Type 0 where
  pub source : Text
  pub source_type : SourceType
  pub identifier : Text
  pub label : Option Text
  pub user_id : Option ℕ

unfoldable pub check_request : Library → CreateTaskRequest → Response Checked
unfolding validate_source parse_source_identifier
check_request lib req = do
  source ← or_400 (validate_source lib.unicode req.source)
  identifier ←
      or_error HttpError.no_identifier
        (parse_source_identifier lib.unicode lib.sha1 source.0 source.1)
  label ← or_400 (checked_label req.label)
  user ← or_400 (checked_user req.user_id)
  ok (record {
    source = source.0;
    source_type = source.1;
    identifier = identifier;
    label = label;
    user_id = user;
  })

-- `reusable_statuses`
abbrev pub is_reusable : Status → Bool
is_reusable s =
    in_completed_statuses s
    || in_active_statuses s
    || status_eq s Status.queued
    || status_eq s Status.resolving

abbrev pub matches_source : Text → SourceType → Task → Bool
matches_source identifier source_type t =
    text_eq t.infohash identifier
    && source_type_eq t.source_type source_type
    && is_reusable t.status

-- `.order_by(Task.created_at.desc())` and `.first()`: the newest row that the test finds, and of two of
-- one time the first.
abbrev pub newer : Task → Option Task → Option Task
newer t none = some t
newer t (some u) = if ltb t.created_at u.created_at then some u else some t

unfoldable pub newest : (Task → Bool) → List Task → Option Task
newest p [] = none
newest p (t ∷ ts) = let later = newest p ts in if p t then newer t later else later

-- `total_magnets_processed += 1` for the user's statistics, if there is a user
abbrev pub has_user : ℕ → UserStats → Bool
has_user user s = s.user_id == user

abbrev pub count_task : Option ℕ → List UserStats → List UserStats
unfolding update_first
count_task none stats = stats
count_task (some user) stats = elim (user == 0) [
  | true ↦ stats
  | false ↦
      update_first (has_user user)
        (λ s. record s { total_magnets_processed = s.total_magnets_processed + 1 }) stats
]

-- `if not req.label: req.label = generate_task_name(...)`
abbrev pub label_or_name : Library → Checked → Text → Text
unfolding generate_task_name
label_or_name lib c task_id = elim c.label [
  | some (x ∷ s) ↦ x ∷ s
  | _ ↦
      generate_task_name lib.unicode lib.urls c.source c.source_type
        (record { label = none; torrent_name = none; filenames = []; task_id = some task_id })
]

abbrev pub new_task : Library → CreateTaskRequest → Checked → Text → ℕ → Task
new_task lib req c task_id now = record {
  id = task_id;
  user_id = c.user_id;
  label = some (label_or_name lib c task_id);
  mode = req.mode;
  source = c.source;
  source_type = c.source_type;
  infohash = c.identifier;
  provider_ref = none;
  status = Status.queued;
  created_at = now;
  updated_at = now;
}

pub record Created : Type 0 where
  pub task_id : Text
  pub status : Status
  pub reused : Bool

unfoldable pub insert_task : Task → World → World
unfolding update_first
insert_task t w = publish t.id (Event.hello t.mode Status.queued) (record w {
  db = record w.db { tasks = w.db.tasks ++ (t ∷ []); stats = count_task t.user_id w.db.stats };
})

-- The part of the handler after the validation.
abbrev pub reuse_or_create : Task → Option Task → World → Created × World
unfolding insert_task
reuse_or_create t (some e) w = (record { task_id = e.id; status = e.status; reused = true }, w)
reuse_or_create t none w =
    (record { task_id = t.id; status = Status.queued; reused = false }, insert_task t w)

unfoldable pub create_task :
    Library → Text → ℕ → CreateTaskRequest → World → Response (Created × World)
unfolding check_request newest insert_task
create_task lib new_id now req w = do
  c ← check_request lib req
  ok (
      reuse_or_create (new_task lib req c new_id now)
        (newest (matches_source c.identifier c.source_type) w.db.tasks) w)

-- The validated id of a path, and the task that it names.
unfoldable pub require_task : Unicode → Text → World → Response (Text × Task)
unfolding validate_task_id get_task
require_task U task_id w = do
  id ← or_400 (validate_task_id U task_id)
  t ← or_error HttpError.not_found (get_task id w.db)
  ok (id, t)

-- `f.state = FileState.SELECTED` for the files of the task whose id the request names
abbrev pub select_row : Text → List Text → TaskFile → TaskFile
select_row task_id ids f =
    if file_of task_id f && elem_of f.id ids then record f { state = FileState.selected } else f

abbrev pub awaits_selection : Task → Bool
awaits_selection t = elim t.mode [
  | Mode.select ↦ status_eq t.status Status.waiting_selection
  | Mode.auto ↦ false
]

unfoldable pub select_files : Unicode → Text → List Text → World → Response World
unfolding require_task elem_of
select_files U task_id ids w = do
  found ← require_task U task_id w
  raise_if (not (awaits_selection found.1)) HttpError.not_waiting
  ok (
      move_task found.0 Status.downloading none
        (record w { db = record w.db { files = map (select_row found.0 ids) w.db.files } }))

unfoldable pub cancel_task : Unicode → Text → World → Response World
unfolding require_task
cancel_task U task_id w = do
  found ← require_task U task_id w
  ok (move_task found.0 Status.canceled none w)

-- `session.delete(task)`: the row, and by the cascade its files.
unfoldable pub remove_task : Text → World → World
remove_task id w = record w {
  db = record w.db {
    tasks = filter (λ t. not (has_task_id id t)) w.db.tasks;
    files = filter (λ f. not (file_of id f)) w.db.files;
  };
}

-- A task that is not there is no error.
abbrev pub remove_found : Text → Option Task → World → World
unfolding remove_task
remove_found id none w = w
remove_found id (some t) w = remove_task id w

unfoldable pub delete_task : Unicode → Text → World → Response World
unfolding validate_task_id get_task remove_task
delete_task U task_id w = do
  id ← or_400 (validate_task_id U task_id)
  ok (remove_found id (get_task id w.db) w)
