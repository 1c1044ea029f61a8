-- ===== src/World.antt =====
-- The committed database with the events that went to the Redis channels (`publish` of
-- worker/scheduler.py, `r.publish` of app/api.py), in the order in which they were sent.
use all_debrid_proxy.Base.{ℕ, Option, List, [], ◌∷◌, ◌++◌, Text}
use all_debrid_proxy.Constants.{Status, FileState, Mode}
use all_debrid_proxy.Models.{Db, TaskFile, set_status, update_file}

-- The `reason` of an event that reports a failure.
pub data Reason : Type 0 where
  magnet_upload_failed timeout_no_files link_info_failed unknown_source_type : Reason
  storage_not_writable unlock_failed enqueue_failed : Reason

-- `EventType` with the fields of its payload that name a file, a state or a status.
pub data Event : Type 0 where
  hello : Mode → Status → Event
  state : Status → Option Reason → Event
  files_listed : List Text → Event
  file_state : Text → FileState → Event
  file_progress : Text → ℕ → ℕ → Event
  file_failed : Text → Reason → Event
  file_done : Text → Event

pub record World : Type 0 where
  pub db : Db
  pub events : List (Text × Event)

abbrev pub publish : Text → Event → World → World
publish id e w = record w { events = w.events ++ ((id, e) ∷ []) }

-- `task.status = status; session.commit()` and the event that tells of it
abbrev pub move_task : Text → Status → Option Reason → World → World
move_task id status reason w =
    publish id (Event.state status reason) (record w { db = set_status id status w.db })

abbrev pub change_file : Text → (TaskFile → TaskFile) → World → World
change_file id f w = record w { db = update_file id f w.db }
