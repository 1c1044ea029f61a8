-- ===== src/Api/Stats.antt =====
-- `get_system_stats` of app/api.py. The free space, the length of the queue and the health check come from
-- outside and are left out, as is the time of the answer.
pub mod Laws
use all_debrid_proxy.Base.{
  ℕ, ◌+◌, ◌-◌, ◌*◌, min, Bool, true, false, ◌&&◌, Option, none, some, List, [], ◌∷◌, map, ltb, leb,
  if◌then◌else◌, Text, codes, is_empty, take, filter, length, count_if, sum_of,
}
use all_debrid_proxy.Base.Sorting.{sort_by}
use all_debrid_proxy.Constants
use all_debrid_proxy.Constants.{
  Status, FileState, status_eq, file_state_eq, in_completed_statuses, in_active_statuses,
  in_reserved_states,
}
use all_debrid_proxy.Models.{Db, Task, TaskFile, or_zero}

pub record TaskCounts : Type 0 where
  pub total : ℕ
  pub queued : ℕ
  pub resolving : ℕ
  pub downloading : ℕ
  pub waiting_selection : ℕ
  pub active : ℕ
  pub completed : ℕ
  pub failed : ℕ
  pub canceled : ℕ

pub record FileCounts : Type 0 where
  pub total : ℕ
  pub downloading : ℕ
  pub completed : ℕ
  pub failed : ℕ

pub record ActiveFile : Type 0 where
  pub file_id : Text
  pub filename : Text
  pub size_bytes : ℕ
  pub downloaded_bytes : ℕ
  pub progress_pct : ℕ
  pub speed_bps : ℕ
  pub eta_seconds : Option ℕ

pub record Downloads : Type 0 where
  pub active_count : ℕ
  pub total_bytes : ℕ
  pub downloaded_bytes : ℕ
  pub progress_pct : ℕ
  pub active_files : List ActiveFile

pub record SystemStats : Type 0 where
  pub tasks : TaskCounts
  pub files : FileCounts
  pub downloads : Downloads
  pub reserved_bytes : ℕ
  pub total_users : ℕ
  pub aggregate_downloads : ℕ
  pub aggregate_bytes_downloaded : ℕ

unfoldable pub with_status : Status → List Task → ℕ
with_status s = count_if (λ t. status_eq t.status s)

unfoldable pub count_tasks : List Task → TaskCounts
unfolding with_status
count_tasks ts = record {
  total = length ts;
  queued = with_status Status.queued ts;
  resolving = with_status Status.resolving ts;
  downloading = with_status Status.downloading ts;
  waiting_selection = with_status Status.waiting_selection ts;
  active = count_if (λ t. in_active_statuses t.status) ts;
  completed = count_if (λ t. in_completed_statuses t.status) ts;
  failed = with_status Status.failed ts;
  canceled = with_status Status.canceled ts;
}

abbrev pub in_state : FileState → TaskFile → Bool
in_state s f = file_state_eq f.state s

abbrev pub count_files : List TaskFile → FileCounts
count_files fs = record {
  total = length fs;
  downloading = count_if (in_state FileState.downloading) fs;
  completed = count_if (in_state FileState.done) fs;
  failed = count_if (in_state FileState.failed) fs;
}

-- The loop over the files in a reserving state.
unfoldable pub reserved_sum : List TaskFile → ℕ
reserved_sum fs =
    sum_of (λ f. or_zero f.size_bytes - f.bytes_downloaded)
      (filter (λ (f : TaskFile). in_reserved_states f.state) fs)

-- `if downloaded > size and size > 0: downloaded = size`
abbrev pub shown_bytes : ℕ → ℕ → ℕ
shown_bytes size downloaded = if ltb size downloaded && ltb 0 size then size else downloaded

-- `percent` is `int((downloaded / size) * 100)`, in floating point.
abbrev pub shown_progress : (ℕ → ℕ → ℕ) → ℕ → ℕ → ℕ
shown_progress percent size downloaded =
    let progress = if ltb 0 size then percent downloaded size else 0 in
    if ltb 100 progress then 100 else progress

unfoldable pub active_file : (ℕ → ℕ → ℕ) → TaskFile → ActiveFile
active_file percent f =
    let size = or_zero f.size_bytes in
    let downloaded = shown_bytes size f.bytes_downloaded in
    record {
      file_id = f.id;
      filename = if is_empty f.name then codes "Unknown" else f.name;
      size_bytes = size;
      downloaded_bytes = downloaded;
      progress_pct = shown_progress percent size downloaded;
      speed_bps = f.speed_bps;
      eta_seconds = f.eta_seconds;
    }

-- `.order_by(TaskFile.bytes_downloaded.asc())`
abbrev pub less_done : TaskFile → TaskFile → Bool
less_done f g = leb f.bytes_downloaded g.bytes_downloaded

unfoldable pub active_downloads : (ℕ → ℕ → ℕ) → List TaskFile → List ActiveFile
unfolding sort_by active_file
active_downloads percent fs =
    map (active_file percent)
      (take 20 (sort_by less_done (filter (in_state FileState.downloading) fs)))

unfoldable pub count_downloads : (ℕ → ℕ → ℕ) → List TaskFile → Downloads
unfolding active_downloads
count_downloads percent fs =
    let running = filter (in_state FileState.downloading) fs in
    let total = sum_of (λ (f : TaskFile). or_zero f.size_bytes) running in
    let downloaded = sum_of (λ (f : TaskFile). f.bytes_downloaded) running in
    record {
      active_count = count_if (in_state FileState.downloading) fs;
      total_bytes = total;
      downloaded_bytes = downloaded;
      progress_pct = if ltb 0 total then percent downloaded total else 0;
      active_files = active_downloads percent fs;
    }

unfoldable pub get_system_stats : (ℕ → ℕ → ℕ) → Db → SystemStats
unfolding count_tasks count_downloads reserved_sum
get_system_stats percent db = record {
  tasks = count_tasks db.tasks;
  files = count_files db.files;
  downloads = count_downloads percent db.files;
  reserved_bytes = reserved_sum db.files;
  total_users = length db.stats;
  aggregate_downloads = sum_of (λ s. s.total_downloads) db.stats;
  aggregate_bytes_downloaded = sum_of (λ s. s.total_bytes_downloaded) db.stats;
}
