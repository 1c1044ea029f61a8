-- ===== src/Constants.antt =====
-- app/constants.py and the role constants of app/models.py: the enumerations that the database
-- columns hold, the groups that the code tests by `in`, and the limits.
use all_debrid_proxy.Base.{ℕ, ◌*◌, ◌==◌, Bool, true, false}

-- `TaskStatus`
pub data Status : Type 0 where
  queued resolving waiting_selection downloading ready done completed failed canceled : Status

-- `==` of two statuses, by their number
abbrev status_code : Status → ℕ
status_code Status.queued = 0
status_code Status.resolving = 1
status_code Status.waiting_selection = 2
status_code Status.downloading = 3
status_code Status.ready = 4
status_code Status.done = 5
status_code Status.completed = 6
status_code Status.failed = 7
status_code Status.canceled = 8

abbrev pub status_eq : Status → Status → Bool
status_eq a b = status_code a == status_code b

-- `status in TaskStatus.COMPLETED_STATUSES`
abbrev pub in_completed_statuses : Status → Bool
in_completed_statuses Status.ready = true
in_completed_statuses Status.done = true
in_completed_statuses Status.completed = true
in_completed_statuses _ = false

-- `status in TaskStatus.ACTIVE_STATUSES`
abbrev pub in_active_statuses : Status → Bool
in_active_statuses Status.downloading = true
in_active_statuses Status.waiting_selection = true
in_active_statuses _ = false

-- `FileState`
pub data FileState : Type 0 where
  listed selected downloading done failed : FileState

abbrev file_state_code : FileState → ℕ
file_state_code FileState.listed = 0
file_state_code FileState.selected = 1
file_state_code FileState.downloading = 2
file_state_code FileState.done = 3
file_state_code FileState.failed = 4

abbrev pub file_state_eq : FileState → FileState → Bool
file_state_eq a b = file_state_code a == file_state_code b

-- `state in FileState.RESERVED_STATES`
abbrev pub in_reserved_states : FileState → Bool
in_reserved_states FileState.listed = true
in_reserved_states FileState.selected = true
in_reserved_states FileState.downloading = true
in_reserved_states _ = false

-- `TaskMode`
pub data Mode : Type 0 where
  auto select : Mode

-- `SourceType`
pub data SourceType : Type 0 where
  magnet link upload : SourceType

abbrev pub source_type_eq : SourceType → SourceType → Bool
source_type_eq SourceType.magnet SourceType.magnet = true
source_type_eq SourceType.link SourceType.link = true
source_type_eq SourceType.upload SourceType.upload = true
source_type_eq _ _ = false

-- `VALID_ROLES` of app/models.py
pub data Role : Type 0 where
  admin member user : Role

-- `role == ROLE_ADMIN`
abbrev pub is_admin_role : Role → Bool
is_admin_role Role.admin = true
is_admin_role _ = false

-- `Limits`
abbrev pub max_resolve_attempts : ℕ
max_resolve_attempts = 240

abbrev pub max_label_length : ℕ
max_label_length = 500

abbrev pub max_path_length : ℕ
max_path_length = 4096

abbrev pub max_magnet_length : ℕ
max_magnet_length = 10000

abbrev pub max_filename_length : ℕ
max_filename_length = 255

abbrev pub max_url_length : ℕ
max_url_length = 2048

abbrev pub max_sources_per_submission : ℕ
max_sources_per_submission = 10

abbrev pub max_torrent_file_size : ℕ
max_torrent_file_size = 10 * 1024 * 1024

abbrev pub sse_token_expiry : ℕ
sse_token_expiry = 60 * 60

-- In tenths of a second, as one of them is half a second.
abbrev pub sse_heartbeat_interval : ℕ
sse_heartbeat_interval = 250

abbrev pub sse_refresh_interval : ℕ
sse_refresh_interval = 50

abbrev pub sse_empty_files_poll : ℕ
sse_empty_files_poll = 5

abbrev pub sse_max_empty_wait : ℕ
sse_max_empty_wait = 600

abbrev pub default_task_limit : ℕ
default_task_limit = 100

abbrev pub max_upload_file_size : ℕ
max_upload_file_size = 10 * 1024 * 1024 * 1024
