-- ===== src/Worker/Monitor.antt =====
-- `_progress_monitor_loop` of worker/worker.py: one round for one file that is downloading.
-- Times are microseconds. The source computes percentages and speeds in floating point, and truncates
-- each to an integer: the truncated results are the fields of `Floats`, of which nothing is assumed.
pub mod Laws
use all_debrid_proxy.Base.{
  ℕ, ◌+◌, ◌-◌, ◌*◌, min, Bool, true, false, not, ◌&&◌, ◌||◌, Option, none, some, List, [], ◌∷◌, leb,
  ltb, ◌==◌, if◌then◌else◌, Text, ok, err, find,
}
use all_debrid_proxy.Base.Unicode.{Unicode}
use all_debrid_proxy.Constants
use all_debrid_proxy.Constants.{FileState, file_state_eq}
use all_debrid_proxy.Models.{
  Db, Task, TaskFile, UserStats, or_zero, get_task, get_file, update_first,
}
use all_debrid_proxy.World
use all_debrid_proxy.World.{World, Event, publish, change_file}
use all_debrid_proxy.Validation.Names.{validate_file_name}

pub record Floats : Type 0 where
  -- `int((cur / total) * 100)`
  pub percent : ℕ → ℕ → ℕ
  -- `int(bytes / speed)`
  pub quotient : ℕ → ℕ → ℕ
  -- `int(delta / elapsed)`, and that mixed into the previous speed
  pub speed : ℕ → ℕ → ℕ
  pub smoothed : ℕ → ℕ → ℕ → ℕ

-- What aria2 tells of a transfer, none below zero.
pub record Metrics : Type 0 where
  pub completed : ℕ
  pub total : ℕ
  pub speed : ℕ

-- What one round sees of a file. `size` is that of the final file, or else of the control file.
pub record Seen : Type 0 where
  pub aria2 : Option Metrics
  pub out_exists : Bool
  pub tmp_exists : Bool
  pub size : ℕ
  pub out_path : Text
  pub now : ℕ

abbrev pub current_bytes : Seen → Option Metrics → ℕ
current_bytes seen (some m) = m.completed
current_bytes seen none = if seen.out_exists || seen.tmp_exists then seen.size else 0

-- `aria2.get("total", 0) or total`
abbrev pub total_bytes : TaskFile → Option Metrics → ℕ
total_bytes f (some m) = if m.total == 0 then or_zero f.size_bytes else m.total
total_bytes f none = or_zero f.size_bytes

abbrev pub elapsed : ℕ → Option ℕ → ℕ
elapsed now none = 0
elapsed now (some t) = now - t

-- The percentage, capped at 100; 0 where the size is unknown.
unfoldable pub progress : Floats → ℕ → ℕ → ℕ
progress fl cur total = if ltb 0 total then min (fl.percent cur total) 100 else 0

abbrev pub same_eta : Option ℕ → Option ℕ → Bool
same_eta none none = true
same_eta (some a) (some b) = a == b
same_eta _ _ = false

unfoldable pub aria2_eta : Floats → ℕ → ℕ → ℕ → Option ℕ
aria2_eta fl cur total speed =
    if ltb 0 total && ltb cur total && ltb 0 speed
    then some (fl.quotient (total - cur) speed)
    else if ltb 0 total && leb total cur
    then some 0
    else none

-- The row after the round, and whether it is published.
pub record Update : Type 0 where
  pub row : TaskFile
  pub told : Bool

-- The branch with metrics of aria2.
unfoldable pub update_from_aria2 : Floats → Seen → Metrics → TaskFile → Update
unfolding progress aria2_eta
update_from_aria2 fl seen m f =
    let cur = m.completed in
    let total = total_bytes f (some m) in
    let pct = progress fl cur total in
    let eta = aria2_eta fl cur total m.speed in
    if not (cur == f.bytes_downloaded)
      || not (m.speed == f.speed_bps)
      || not (same_eta eta f.eta_seconds)
      || not (pct == f.progress_pct)
    then record {
      row = record f {
        bytes_downloaded = cur;
        progress_pct = pct;
        speed_bps = m.speed;
        eta_seconds = eta;
        last_progress_at = some seen.now;
      };
      told = true;
    }
    else record { row = f; told = false }

-- The smoothed speed of a transfer that is seen through its file only.
unfoldable pub file_speed : Floats → ℕ → TaskFile → ℕ → ℕ
file_speed fl now f cur =
    let gap = elapsed now f.last_progress_at in
    let delta = cur - f.bytes_downloaded in
    if ltb 200000 gap && ltb 0 delta
    then (if ltb 0 f.speed_bps then fl.smoothed f.speed_bps delta gap else fl.speed delta gap)
    else f.speed_bps

-- The branches without metrics: progress on disk, a stall of more than three seconds, or nothing.
unfoldable pub update_from_disk : Floats → Seen → TaskFile → Update
unfolding progress file_speed
update_from_disk fl seen f =
    let cur = current_bytes seen none in
    let total = or_zero f.size_bytes in
    let speed = file_speed fl seen.now f cur in
    if not (cur == f.bytes_downloaded)
    then record {
      row = record f {
        bytes_downloaded = cur;
        progress_pct = progress fl cur total;
        speed_bps = speed;
        eta_seconds =
            if ltb 0 total && ltb cur total && ltb 0 speed
            then some (fl.quotient (total - cur) speed)
            else none;
        last_progress_at = some seen.now;
      };
      told = true;
    }
    else if ltb 3000000 (elapsed seen.now f.last_progress_at) && ltb 0 f.speed_bps
    then record {
      row = record f { speed_bps = 0; eta_seconds = none; last_progress_at = some seen.now };
      told = false;
    }
    else record { row = f; told = false }

abbrev pub update_row : Floats → Seen → Option Metrics → TaskFile → Update
update_row fl seen (some m) f = update_from_aria2 fl seen m f
update_row fl seen none f = update_from_disk fl seen f

-- The test for a finished download.
unfoldable pub is_complete : Seen → TaskFile → Bool
is_complete seen f =
    let total = total_bytes f seen.aria2 in
    seen.out_exists
    && not seen.tmp_exists
    && (total == 0 || leb total (current_bytes seen seen.aria2))

unfoldable pub finish_row : Seen → ℕ → TaskFile → TaskFile
finish_row seen total f = record f {
  state = FileState.done;
  local_path = some seen.out_path;
  progress_pct = if ltb 0 total then 100 else f.progress_pct;
  speed_bps = 0;
  eta_seconds = some 0;
  last_progress_at = some seen.now;
}

abbrev pub stats_of : ℕ → UserStats → Bool
stats_of user s = s.user_id == user

-- The statistics of the task's owner, if the task has one.
abbrev pub count_download : Option ℕ → ℕ → List UserStats → List UserStats
unfolding update_first
count_download none bytes stats = stats
count_download (some user) bytes stats = elim (user == 0) [
  | true ↦ stats
  | false ↦
      update_first (stats_of user)
        (λ s. record s {
          total_downloads = s.total_downloads + 1;
          total_bytes_downloaded = s.total_bytes_downloaded + bytes;
        })
        stats
]

abbrev pub owner : Option Task → Option ℕ
owner none = none
owner (some t) = t.user_id

abbrev pub tell : Bool → Text → Event → World → World
tell true id e w = publish id e w
tell false id e w = w

-- One round for a row that has been read in the state DOWNLOADING.
unfoldable pub monitor_row : Floats → Seen → TaskFile → World → World
unfolding update_from_aria2 update_from_disk is_complete finish_row get_task
monitor_row fl seen f w =
    let u = update_row fl seen seen.aria2 f in
    let w1 =
      tell u.told f.task_id (Event.file_progress f.id u.row.bytes_downloaded u.row.progress_pct)
        (change_file f.id (λ _. u.row) w) in
    if is_complete seen f
    then publish f.task_id (Event.file_done f.id) (
        change_file f.id (λ _. finish_row seen (total_bytes f seen.aria2) u.row)
          (record w1 {
            db = record w1.db {
              stats =
                  count_download (owner (get_task f.task_id w.db)) u.row.bytes_downloaded
                    w1.db.stats;
            };
          }))
    else w1

abbrev pub name_is_valid : Unicode → TaskFile → Bool
unfolding validate_file_name
name_is_valid U f = elim (validate_file_name U f.name) [ ok _ ↦ true | err _ ↦ false ]

-- `select(TaskFile).where(state == DOWNLOADING)` at one file, and the round for it; a file with an
-- invalid name is passed over.
unfoldable pub monitor_file : Unicode → Floats → Seen → Text → World → World
unfolding monitor_row get_file
monitor_file U fl seen id w = elim (get_file id w.db.files) [
  | none ↦ w
  | some f ↦
      if file_state_eq f.state FileState.downloading && name_is_valid U f
      then monitor_row fl seen f w
      else w
]
