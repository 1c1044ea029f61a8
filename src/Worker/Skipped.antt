-- ===== src/Worker/Skipped.antt =====
-- Tasks with a file that nobody selected, and the steps that leave them so (worker/worker.py).
pub mod Resolved
pub mod Runs
use all_debrid_proxy.Base.{
  ℕ, ◌≡◌, refl, ap, ◌∙◌, Bool, true, false, not, ◌&&◌, Option, none, some, List, [], ◌∷◌, map,
  arith, leb, if◌then◌else◌, Bool-cases, inl, inr, Text, text_eq, text_eq→eq, find, filter, all,
  All,
}
use all_debrid_proxy.Base.Unicode.{Unicode}
use all_debrid_proxy.Constants.{Status, FileState, file_state_eq}
use all_debrid_proxy.Models.{
  Db, Task, TaskFile, files_of, file_of, get_file, has_file_id, has_task_id, set_status,
}
use all_debrid_proxy.Models.Rows.{All-update_first, UniqueIds}
use all_debrid_proxy.World.{World, Reason, move_task}
use all_debrid_proxy.Scheduler.{Settings, count_active_and_queued}
use all_debrid_proxy.Worker.Client.{Client}
use all_debrid_proxy.Worker.Resolve.{resolve_task}
use all_debrid_proxy.Worker.Start.{
  candidates, is_selected, Started, start_files, mark_ready, is_done, all_done, free_slots,
  start_next_files,
}
use all_debrid_proxy.Worker.Frame.{SameBut, candidates-SameBut}
use all_debrid_proxy.Worker.Monitor.{Floats, Seen, monitor_file}
use all_debrid_proxy.Worker.Monitor.Laws.{monitor_file-SameBut}

-- The row that has a given id is neither selected nor done.
pub record IsLeft (k : Text) (task_id : Text) (files : List TaskFile) : Type 0 where
  pub row : TaskFile
  pub found : get_file k files ≡ some row
  pub owned : text_eq row.task_id task_id ≡ true
  pub not_selected : is_selected row ≡ false
  pub not_downloading : file_state_eq row.state FileState.downloading ≡ false
  pub not_done : is_done row ≡ false

-- The file rows have different ids.
abbrev pub HasUniqueIds : World → Type 0
HasUniqueIds w = UniqueIds (map (λ (f : TaskFile). f.id) w.db.files)

mutual
  -- What happens while the task `id` is in the table: the worker starts files of any task and resolves other tasks,
  -- the monitor looks at any file, and users cancel tasks. While the worker sleeps between two polls, the others go
  -- on. The ids of the file rows are their primary key, also after new ones were added.
  pub data Step (id : Text) : World → World → Type 0 where
    start :
        (w : World) (settings : Settings) (client : Client) (writable : Bool) (now : ℕ)
        (task : Task)
        → Step id w (start_next_files settings client writable now task w)
    monitor :
        (w : World) (U : Unicode) (fl : Floats) (seen : Seen) (i : Text)
        → Step id w (monitor_file U fl seen i w)
    cancel : (w : World) (i : Text) → Step id w (move_task i Status.canceled none w)
    resolve :
        (w : World) (U : Unicode) (new_id : ℕ → Text) (client : Client)
        (elsewhere : ℕ → World → World) (task : Task)
        → text_eq task.id id ≡ false
        → ((n : ℕ) (v : World) → Run id v (elsewhere n v))
        → HasUniqueIds (resolve_task U new_id client elsewhere task w)
        → Step id w (resolve_task U new_id client elsewhere task w)

  pub data Run (id : Text) : World → World → Type 0 where
    here : {u : World} → Run id u u
    next : {u v w : World} → Run id u v → Step id v w → Run id u w

abbrev pub is_ready_or_queued : Status → Bool
is_ready_or_queued Status.ready = true
is_ready_or_queued Status.queued = true
is_ready_or_queued _ = false

-- The task's rows say neither READY nor QUEUED.
abbrev pub NotReady : Text → Task → Type 0
NotReady id t = (text_eq t.id id && is_ready_or_queued t.status) ≡ false

-- A task that is neither READY nor QUEUED, one of whose files was left out of the selection or has failed.
pub record IsBehind (k id : Text) (w : World) : Type 0 where
  pub left : IsLeft k id w.db.files
  pub not_ready : All (NotReady id) w.db.tasks

pub record IsStuck (k id : Text) (w : World) : Type 0 where
  pub behind : IsBehind k id w
  pub unique : HasUniqueIds w

pub IsStuck-SameBut :
    {k id : Text} {w w' : World} → SameBut k w w' → IsStuck k id w → IsStuck k id w'
IsStuck-SameBut same h = record {
  behind = record {
    left = record {
      row = h.behind.left.row;
      found = same.row ∙ h.behind.left.found;
      owned = h.behind.left.owned;
      not_selected = h.behind.left.not_selected;
      not_downloading = h.behind.left.not_downloading;
      not_done = h.behind.left.not_done;
    };
    not_ready = rw same.tasks h.behind.not_ready;
  };
  unique = rw same.ids h.unique;
}

-- One file that is not done keeps a task from being ready.
not_all_done :
    (p q : TaskFile → Bool) (fs : List TaskFile) (row : TaskFile)
    → find p fs ≡ some row
    → q row ≡ true
    → is_done row ≡ false
    → all is_done (filter q fs) ≡ false
not_all_done p q [] row found mine undone = cc
not_all_done p q (f ∷ fs) row found mine undone = elim (Bool-cases (p f)) [
  | inl e ↦
      let same : f ≡ row = some_inj (rw e at found) in
      rw (ap q same ∙ mine, ap is_done same ∙ undone) refl
  | inr e ↦
      let rest = not_all_done p q fs row (rw e at found) mine undone in
      elim (Bool-cases (q f)) [ inl t ↦ rw (t, rest) (ground arith) | inr t ↦ rw t rest ]
]
  where
    some_inj : {a b : TaskFile} → some a ≡ some b → a ≡ b
    some_inj h = cc

all_done_of_all : (fs : List TaskFile) → all is_done fs ≡ false → all_done fs ≡ false
all_done_of_all [] h = refl
all_done_of_all (f ∷ fs) h = h

IsLeft-not_ready :
    (k id : Text) (db : Db) → IsLeft k id db.files → all_done (files_of id db) ≡ false
unfolding files_of get_file
IsLeft-not_ready k id db h =
    all_done_of_all (filter (file_of id) db.files)
      (not_all_done (has_file_id k) (file_of id) db.files h.row h.found h.owned h.not_done)

-- A status other than READY and QUEUED may be given to any task, and each to any other task.
pub move_task-IsBehind :
    (k id i : Text) (status : Status) (reason : Option Reason) (w : World)
    → (text_eq i id && is_ready_or_queued status) ≡ false
    → IsBehind k id w
    → IsBehind k id (move_task i status reason w)
unfolding set_status
move_task-IsBehind k id i status reason w safe h = record {
  left = h.left;
  not_ready =
      All-update_first (NotReady id) (has_task_id i) (λ t. record t { status = status }) w.db.tasks
        (λ t e _. rw (text_eq→eq t.id i e) safe) h.not_ready;
}

pub move_task-IsStuck :
    (k id i : Text) (status : Status) (reason : Option Reason) (w : World)
    → (text_eq i id && is_ready_or_queued status) ≡ false
    → IsStuck k id w
    → IsStuck k id (move_task i status reason w)
unfolding set_status
move_task-IsStuck k id i status reason w safe h = record {
  behind = move_task-IsBehind k id i status reason w safe h.behind;
  unique = h.unique;
}

mark_ready-IsStuck : (k id i : Text) (w : World) → IsStuck k id w → IsStuck k id (mark_ready i w)
unfolding mark_ready
mark_ready-IsStuck k id i w h = elim (Bool-cases (text_eq i id)) [
  | inl e ↦
      rw
        (ap (λ j. all_done (files_of j w.db)) (text_eq→eq i id e)
          ∙ IsLeft-not_ready k id w.db h.behind.left)
        h
  | inr e ↦ elim (Bool-cases (all_done (files_of i w.db))) [
    | inr d ↦ rw d h
    | inl d ↦ rw d (move_task-IsStuck k id i Status.ready none w (rw e refl) h)
  ]
]

pub start-IsStuck :
    (k id : Text) (settings : Settings) (client : Client) (writable : Bool) (now : ℕ) (task : Task)
    (w : World)
    → IsStuck k id w
    → IsStuck k id (start_next_files settings client writable now task w)
unfolding start_next_files
start-IsStuck k id settings client writable now task w h = branches (leb n 0) writable
  where
    n : ℕ
    n = free_slots settings (count_active_and_queued task.id w.db).0

    s : Started
    s = start_files client now task n (candidates task.id w.db) (record { world = w; started = 0 })

    branches :
        (full ok : Bool)
        → IsStuck k id (
            if full
            then w
            else if not ok
            then move_task task.id Status.failed (some Reason.storage_not_writable) w
            else mark_ready task.id s.world)
    branches true ok = h
    branches false false =
        move_task-IsStuck k id task.id Status.failed (some Reason.storage_not_writable) w
          (ground arith) h
    branches false true = mark_ready-IsStuck k id task.id s.world (
        IsStuck-SameBut
          (candidates-SameBut k client now task n w h.behind.left.row h.unique h.behind.left.found
            h.behind.left.not_selected)
          h)
