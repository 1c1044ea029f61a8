-- ===== src/Worker/Resolve.antt =====
-- `resolve_task` of worker/worker.py. `elsewhere` is what other processes commit while the worker
-- sleeps between two polls; `new_id` gives the fresh ids of `uuid.uuid4()`. The log is left out.
pub mod Laws
pub mod Listed
use all_debrid_proxy.Base.{
  ℕ, zero, suc, ◌+◌, ◌/◌, ◌%◌, Bool, true, false, Option, none, some, List, [], ◌∷◌, ◌++◌, map, ltb,
  ◌==◌, if◌then◌else◌, Text, codes, is_empty, text_eq, take, find, ok, err,
}
use all_debrid_proxy.Base.Unicode.{Unicode}
use all_debrid_proxy.Base.Decimal.{decimal}
use all_debrid_proxy.Constants
use all_debrid_proxy.Constants.{Status, FileState, SourceType, Mode, max_resolve_attempts}
use all_debrid_proxy.Models.{
  Db, Task, TaskFile, files_of, file_of, has_task_id, set_status, update_first,
}
use all_debrid_proxy.World
use all_debrid_proxy.World.{World, Event, Reason, publish, move_task}
use all_debrid_proxy.Validation.Names.{validate_file_name}
use all_debrid_proxy.Worker.Client.{Client, FileInfo}

-- `fi.get("name") or f"file_{i}"`
abbrev pub name_or_default : ℕ → Text → Text
unfolding decimal
name_or_default i [] = codes "file_" ++ decimal i
name_or_default i (c ∷ s) = c ∷ s

-- `TaskFile(...)` with the defaults of the columns
abbrev pub new_file : Text → Text → ℕ → Text → ℕ → TaskFile
new_file id task_id i name size = record {
  id = id;
  task_id = task_id;
  index = i;
  name = name;
  size_bytes = some size;
  state = FileState.listed;
  bytes_downloaded = 0;
  speed_bps = 0;
  eta_seconds = none;
  progress_pct = 0;
  last_progress_at = none;
  local_path = none;
  unlocked_url = none;
}

abbrev pub add_file : TaskFile → Db → Db
add_file f db = record db { files = db.files ++ (f ∷ []) }

abbrev pub has_index : ℕ → TaskFile → Bool
has_index i f = f.index == i

-- `session.commit()` after `task.provider_ref = ref`
unfoldable pub set_provider_ref : Text → Text → World → World
unfolding update_first
set_provider_ref id ref w = record w {
  db = record w.db {
    tasks = update_first (has_task_id id) (λ t. record t { provider_ref = some ref }) w.db.tasks;
  };
}

pub record Listing : Type 0 where
  pub db : Db
  pub listed : List Text

-- One entry of the provider's list: the names that fail validation are skipped, and an entry that
-- already has a row keeps it.
abbrev pub list_file : Text → Text → ℕ → Text → ℕ → Option TaskFile → Listing → Listing
list_file id task_id i name size (some tf) l = record l { listed = l.listed ++ (tf.id ∷ []) }
list_file id task_id i name size none l = record {
  db = add_file (new_file id task_id i name size) l.db;
  listed = l.listed ++ (id ∷ []);
}

-- The loop over the entries; `existing` are the task's rows from before it.
unfoldable pub list_files :
    Unicode → (ℕ → Text) → Text → List TaskFile → ℕ → List FileInfo → Listing → Listing
unfolding validate_file_name
list_files U new_id task_id existing i [] l = l
list_files U new_id task_id existing i (fi ∷ fis) l =
    list_files U new_id task_id existing (i + 1) fis (
      let name = name_or_default i fi.name in
      elim (validate_file_name U name) [
        | err e ↦ l
        | ok n ↦ list_file (new_id i) task_id i name fi.size (find (has_index i) existing) l
      ])

abbrev pub no_files : List FileInfo → Bool
no_files [] = true
no_files (f ∷ fs) = false

-- The rest of a poll that found files.
unfoldable pub list_found : Unicode → (ℕ → Text) → Text → List FileInfo → World → World
unfolding list_files files_of
list_found U new_id task_id files w =
    let l =
      list_files U new_id task_id (files_of task_id w.db) 0 files
        (record { db = w.db; listed = [] }) in
    publish task_id (Event.files_listed l.listed) (record w { db = l.db })

-- `status.get("files") or []`, where a call that raises has none
abbrev pub polled : Option (List FileInfo) → List FileInfo
polled none = []
polled (some files) = files

-- The polling loop with its rounds left, and its `else`: `none` if no round found files.
unfoldable pub poll :
    Unicode
    → (ℕ → Text)
    → Client
    → (ℕ → World → World)
    → Text
    → Option Text
    → ℕ
    → ℕ
    → World
    → Option World
poll U new_id client elsewhere task_id ref round zero w = none
poll U new_id client elsewhere task_id ref round (suc left) w =
    let files = polled (client.get_magnet_status round ref) in
    let later = poll U new_id client elsewhere task_id ref (round + 1) left (elsewhere round w) in
    if no_files files then later else some (list_found U new_id task_id files w)

-- The last part: wait for the selection, or take all files.
unfoldable pub select_all : Text → World → World
select_all task_id w = record w {
  db = record w.db {
    files =
        map
          (λ (f : TaskFile).
            if file_of task_id f then record f { state = FileState.selected } else f)
          w.db.files;
  };
}

unfoldable pub finish_resolve : Task → World → World
unfolding select_all
finish_resolve task w = elim task.mode [
  | Mode.select ↦ move_task task.id Status.waiting_selection none w
  | Mode.auto ↦ move_task task.id Status.downloading none (select_all task.id w)
]

abbrev pub after_poll : Task → World → Option World → World
unfolding finish_resolve
after_poll task w none = move_task task.id Status.failed (some Reason.timeout_no_files) w
after_poll task w (some w') = finish_resolve task w'

-- What others commit during all rounds of a loop that finds nothing.
unfoldable pub wait_out : (ℕ → World → World) → ℕ → ℕ → World → World
wait_out elsewhere round zero w = w
wait_out elsewhere round (suc left) w = wait_out elsewhere (round + 1) left (elsewhere round w)

-- `task.provider_ref`, uploaded now if there is none; `none` where the upload raises or lists no id
unfoldable pub upload_ref : Client → Task → Option Text
upload_ref client task = elim task.provider_ref [
  | some (c ∷ r) ↦ some (c ∷ r)
  | _ ↦ elim (client.upload_magnets task.source) [
    | none ↦ none
    | some [] ↦ none
    | some (id ∷ ids) ↦ some id
  ]
]

-- The id of a new upload is stored; one that was there stays.
unfoldable pub store_ref : Task → Text → World → World
unfolding set_provider_ref
store_ref task ref w = elim task.provider_ref [
  | some (c ∷ r) ↦ w
  | _ ↦ set_provider_ref task.id ref w
]

unfoldable pub resolve_magnet :
    Unicode → (ℕ → Text) → Client → (ℕ → World → World) → ℕ → Task → World → World
unfolding upload_ref store_ref poll wait_out
resolve_magnet U new_id client elsewhere attempts task w = elim (upload_ref client task) [
  | none ↦ move_task task.id Status.failed (some Reason.magnet_upload_failed) w
  | some ref ↦
      let w1 = move_task task.id Status.resolving none (store_ref task ref w) in
      after_poll task (wait_out elsewhere 0 attempts w1)
        (poll U new_id client elsewhere task.id (some ref) 0 attempts w1)
]

-- A name that fails validation is replaced by `f"download_{task.id[:8]}"`.
unfoldable pub link_name : Unicode → Text → Text → Text
unfolding validate_file_name
link_name U task_id name =
    let filename = if is_empty name then codes "download" else name in
    elim (validate_file_name U filename) [
      | ok n ↦ filename
      | err e ↦ codes "download_" ++ take 8 task_id
    ]

abbrev pub list_link : Text → Text → Text → ℕ → List TaskFile → World → World
list_link id task_id name size (f ∷ fs) w = w
list_link id task_id name size [] w =
    publish task_id (Event.files_listed (id ∷ []))
      (record w { db = add_file (new_file id task_id 0 name size) w.db })

unfoldable pub resolve_link : Unicode → (ℕ → Text) → Client → Task → World → World
unfolding link_name set_provider_ref files_of
resolve_link U new_id client task w =
    let w1 = move_task task.id Status.resolving none w in
    elim (client.get_link_info task.source) [
      | none ↦ move_task task.id Status.failed (some Reason.link_info_failed) w1
      | some info ↦ finish_resolve task (
          set_provider_ref task.id task.source (
            list_link (new_id 0) task.id (link_name U task.id info.name) info.size
              (files_of task.id w1.db) w1))
    ]

unfoldable pub resolve_task :
    Unicode → (ℕ → Text) → Client → (ℕ → World → World) → Task → World → World
unfolding resolve_magnet resolve_link
resolve_task U new_id client elsewhere task w = elim task.source_type [
  | SourceType.magnet ↦ resolve_magnet U new_id client elsewhere max_resolve_attempts task w
  | SourceType.link ↦ resolve_link U new_id client task w
  | SourceType.upload ↦ move_task task.id Status.failed (some Reason.unknown_source_type) w
]
