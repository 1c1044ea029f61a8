-- ===== src/Worker/Start.antt =====
-- `start_next_files` of worker/worker.py.
pub mod Limits
use all_debrid_proxy.Base.{
  ℕ, ◌+◌, ◌-◌, min, Bool, true, false, not, ◌&&◌, Option, none, some, List, [], ◌∷◌, leb, ltb,
  if◌then◌else◌, Text, codes, is_empty, starts_with, all, filter,
}
use all_debrid_proxy.Constants
use all_debrid_proxy.Constants.{Status, FileState, SourceType, file_state_eq}
use all_debrid_proxy.Models.{Db, Task, TaskFile, files_of}
use all_debrid_proxy.World
use all_debrid_proxy.World.{World, Event, Reason, publish, move_task, change_file}
use all_debrid_proxy.Scheduler.{Settings, count_active_and_queued}
use all_debrid_proxy.Worker.Client.{Client}

-- `.order_by(TaskFile.index)`
unfoldable pub insert_by_index : TaskFile → List TaskFile → List TaskFile
insert_by_index f [] = f ∷ []
insert_by_index f (g ∷ gs) = if leb f.index g.index then f ∷ g ∷ gs else g ∷ insert_by_index f gs

unfoldable pub order_by_index : List TaskFile → List TaskFile
unfolding insert_by_index
order_by_index [] = []
order_by_index (f ∷ fs) = insert_by_index f (order_by_index fs)

abbrev pub is_selected : TaskFile → Bool
is_selected f = file_state_eq f.state FileState.selected

unfoldable pub candidates : Text → Db → List TaskFile
unfolding order_by_index files_of
candidates id db = order_by_index (filter is_selected (files_of id db))

-- `if not url or not url.startswith("http"): raise`
abbrev pub http_only : Option Text → Option Text
http_only none = none
http_only (some url) =
    if not (is_empty url) && starts_with url (codes "http") then some url else none

-- 1) The unlocked link, or `none` where the block raises.
unfoldable pub unlock : Client → Task → TaskFile → Option Text
unfolding starts_with
unlock client task f = elim task.source_type [
  | SourceType.magnet ↦ http_only (client.download_link task.provider_ref f.index)
  | SourceType.link ↦ http_only (client.unlock_link task.provider_ref)
  | SourceType.upload ↦ none
]

-- `f.state = FileState.FAILED`, committed and published
abbrev pub fail_file : Text → Text → Reason → World → World
fail_file id file reason w =
    publish id (Event.file_failed file reason)
      (change_file file (λ f. record f { state = FileState.failed }) w)

-- 2) The attributes that turn a file to downloading.
abbrev pub begin_download : Text → ℕ → TaskFile → TaskFile
begin_download url now f = record f {
  unlocked_url = some url;
  state = FileState.downloading;
  speed_bps = 0;
  eta_seconds = none;
  progress_pct = 0;
  last_progress_at = some now;
}

pub record Started : Type 0 where
  pub world : World
  pub started : ℕ

-- The rest of the loop's body, once the link is known.
abbrev pub enqueue : Bool → Text → TaskFile → ℕ → World → Started
enqueue true id f started w = record { world = w; started = started + 1 }
enqueue false id f started w = record {
  world = fail_file id f.id Reason.enqueue_failed w;
  started = started;
}

abbrev pub start_unlocked : Client → ℕ → Text → TaskFile → Option Text → Started → Started
start_unlocked client now id f none s = record s {
  world = fail_file id f.id Reason.unlock_failed s.world;
}
start_unlocked client now id f (some url) s = enqueue (client.add_uri url f.name) id f s.started (
    publish id (Event.file_state f.id FileState.downloading)
      (change_file f.id (begin_download url now) s.world))

-- The body of the loop over the candidates.
unfoldable pub start_file : Client → ℕ → Task → TaskFile → Started → Started
start_file client now task f s = start_unlocked client now task.id f (unlock client task f) s

-- The loop, which stops when enough files have been started.
unfoldable pub start_files : Client → ℕ → Task → ℕ → List TaskFile → Started → Started
unfolding start_file unlock
start_files client now task to_start [] s = s
start_files client now task to_start (f ∷ fs) s =
    if leb to_start s.started
    then s
    else start_files client now task to_start fs (start_file client now task f s)

abbrev pub is_done : TaskFile → Bool
is_done f = file_state_eq f.state FileState.done

abbrev pub all_done : List TaskFile → Bool
all_done [] = false
all_done (f ∷ fs) = all is_done (f ∷ fs)

-- `if files and all(...): task.status = READY`
unfoldable pub mark_ready : Text → World → World
unfolding files_of
mark_ready id w = if all_done (files_of id w.db) then move_task id Status.ready none w else w

-- `min(max(PER_TASK_MAX_ACTIVE - active, 0), PER_TASK_MAX_QUEUED)`
abbrev pub free_slots : Settings → ℕ → ℕ
free_slots settings active =
    min (settings.per_task_max_active - active) settings.per_task_max_queued

-- `writable` is the answer of `_dir_writable` for the task's directory.
unfoldable pub start_next_files : Settings → Client → Bool → ℕ → Task → World → World
unfolding start_files mark_ready candidates
start_next_files settings client writable now task w =
    let to_start = free_slots settings (count_active_and_queued task.id w.db).0 in
    if leb to_start 0
    then w
    else if not writable
    then move_task task.id Status.failed (some Reason.storage_not_writable) w
    else mark_ready task.id
        (start_files client now task to_start (candidates task.id w.db)
          (record { world = w; started = 0 })).world
