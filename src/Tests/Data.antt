-- ===== src/Tests/Data.antt =====
-- Small rows, worlds and clients of the tests.
use all_debrid_proxy.Base.{
  ℕ, zero, suc, true, false, Option, none, some, List, [], ◌∷◌, Text, codes,
}
use all_debrid_proxy.Constants.{Status, FileState, Mode, SourceType}
use all_debrid_proxy.Models.{Task, TaskFile, Db}
use all_debrid_proxy.World.{World}
use all_debrid_proxy.Scheduler.{Settings}
use all_debrid_proxy.Base.Unicode.{ascii_only}
use all_debrid_proxy.Api.Tasks.{Library}
use all_debrid_proxy.Worker.Client.{Client, FileInfo}
use all_debrid_proxy.Worker.Monitor.{Floats, Seen}

abbrev pub task_id : Text
task_id = codes "0a1b2c3d-0000-4000-8000-00000000000f"

abbrev pub source : Text
source = codes "http://h/a.mkv"

abbrev pub a_task : Mode → SourceType → Status → Task
a_task mode source_type status = record {
  id = task_id;
  user_id = some 7;
  label = none;
  mode = mode;
  source = source;
  source_type = source_type;
  infohash = source;
  provider_ref = some source;
  status = status;
  created_at = 5;
  updated_at = 5;
}

abbrev pub first_id : Text
first_id = codes "f1"

abbrev pub second_id : Text
second_id = codes "f2"

abbrev pub a_file : Text → ℕ → FileState → TaskFile
a_file id index state = record {
  id = id;
  task_id = task_id;
  index = index;
  name = codes "a.mkv";
  size_bytes = some 100;
  state = state;
  bytes_downloaded = 0;
  speed_bps = 0;
  eta_seconds = none;
  progress_pct = 0;
  last_progress_at = none;
  local_path = none;
  unlocked_url = none;
}

abbrev pub a_world : Task → List TaskFile → World
a_world t files = record {
  db = record { tasks = t ∷ []; files = files; users = []; stats = [] };
  events = [];
}

abbrev pub empty_db : Db
empty_db = record { tasks = []; files = []; users = []; stats = [] }

abbrev pub settings : Settings
settings = record {
  low_space_floor_gb = 1;
  per_task_max_active = 2;
  per_task_max_queued = 3;
  retention_seconds = 10;
}

-- A provider that finds one file, from the second round on, and a daemon that accepts each download.
abbrev pub found_files : ℕ → Option (List FileInfo)
found_files zero = none
found_files (suc n) = some (record { name = codes "a.mkv"; size = 100 } ∷ [])

abbrev pub client : Client
client = record {
  upload_magnets = λ s. some (codes "m1" ∷ []);
  get_magnet_status = λ round ref. found_files round;
  get_link_info = λ s. some (record { name = codes "a.mkv"; size = 100 });
  download_link = λ ref i. some source;
  unlock_link = λ s. some source;
  add_uri = λ url name. true;
}

abbrev pub floats : Floats
floats = record { percent = λ a b. a; quotient = λ a b. 1; speed = λ a b. a; smoothed = λ a b c. b }

-- The final file is there, with all its bytes.
abbrev pub finished : Seen
finished = record {
  aria2 = none;
  out_exists = true;
  tmp_exists = false;
  size = 100;
  out_path = codes "/srv/a.mkv";
  now = 9;
}

abbrev pub library : Library
library = record {
  unicode = ascii_only;
  urls = record { unquote_plus = λ s. s; path = λ s. some s };
  sha1 = λ s. s;
}
