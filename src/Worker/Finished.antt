-- ===== src/Worker/Finished.antt =====
-- When worker/worker.py moves a task to READY whose files are all DONE.
pub mod Pass
use all_debrid_proxy.Base.{
  ℕ, ◌+◌, ◌-◌, ◌≤◌, ◌≡◌, refl, ap, ◌∙◌, Bool, true, false, ◌&&◌, Option, none, some, List, [], ◌∷◌,
  arith, leb, min, if◌then◌else◌, Bool-cases, inl, inr, Text, all, filter, sum_of, &&_true,
}
use all_debrid_proxy.Constants.{Status, FileState, file_state_eq, in_reserved_states}
use all_debrid_proxy.Models.{Db, Task, TaskFile, get_task, has_task_id, files_of, set_status}
use all_debrid_proxy.Models.Rows.{find-update_first_self}
use all_debrid_proxy.World.{World, Reason, move_task}
use all_debrid_proxy.Scheduler.{
  Settings, reserved_of, reserved_bytes_for_task, task_total_size, global_reserved_bytes, low_floor,
  can_start_task, is_downloading, count_active_and_queued,
}
use all_debrid_proxy.Worker.Client.{Client}
use all_debrid_proxy.Worker.Start.{
  is_selected, order_by_index, candidates, is_done, all_done, mark_ready, start_files,
  start_next_files,
}
use all_debrid_proxy.Worker.Loop.{Inputs, start_active}

-- A row that is DONE is in none of the other states.
abbrev IsDone : TaskFile → Type 0
IsDone f =
    (is_downloading f ≡ false) × (is_selected f ≡ false) × (in_reserved_states f.state ≡ false)

is_done-IsDone : (f : TaskFile) → is_done f ≡ true → IsDone f
is_done-IsDone f h = by_state f.state h
  where
    by_state :
        (s : FileState)
        → file_state_eq s FileState.done ≡ true
        → (file_state_eq s FileState.downloading ≡ false)
          × (file_state_eq s FileState.selected ≡ false)
          × (in_reserved_states s ≡ false)
    by_state FileState.listed h = cc
    by_state FileState.selected h = cc
    by_state FileState.downloading h = cc
    by_state FileState.done h = (refl, refl, refl)
    by_state FileState.failed h = cc

none_downloading : (fs : List TaskFile) → all is_done fs ≡ true → filter is_downloading fs ≡ []
none_downloading [] h = refl
none_downloading (f ∷ fs) h =
    let (first, rest) = &&_true (is_done f) (all is_done fs) h in
    let (e, _, _) = is_done-IsDone f first in rw e (none_downloading fs rest)

none_selected : (fs : List TaskFile) → all is_done fs ≡ true → filter is_selected fs ≡ []
none_selected [] h = refl
none_selected (f ∷ fs) h =
    let (first, rest) = &&_true (is_done f) (all is_done fs) h in
    let (_, e, _) = is_done-IsDone f first in rw e (none_selected fs rest)

none_reserved : (fs : List TaskFile) → all is_done fs ≡ true → sum_of reserved_of fs ≡ 0
unfolding reserved_of
none_reserved [] h = refl
none_reserved (f ∷ fs) h =
    let (first, rest) = &&_true (is_done f) (all is_done fs) h in
    let (_, _, e) = is_done-IsDone f first in rw (e, none_reserved fs rest) refl

all_of_all_done : (fs : List TaskFile) → all_done fs ≡ true → all is_done fs ≡ true
all_of_all_done [] h = refl
all_of_all_done (f ∷ fs) h = h

-- The space that a finished task has to find before it can become READY.
abbrev pub has_room : Settings → ℕ → Text → Db → Bool
unfolding global_reserved_bytes task_total_size
has_room settings free id db =
    leb (global_reserved_bytes db + task_total_size id db) free && leb (low_floor settings) free

can_start_task-done :
    (settings : Settings) (free : ℕ) (id : Text) (db : Db)
    → all_done (files_of id db) ≡ true
    → can_start_task settings free id db ≡ has_room settings free id db
unfolding can_start_task has_room
can_start_task-done settings free id db h =
    let e = reserved_none id db h in
    let f : task_total_size id db - 0 ≡ task_total_size id db = omega arith in
    rw (can_start_task, e, f) refl
  where
    reserved_none :
        (id : Text) (db : Db) → all_done (files_of id db) ≡ true → reserved_bytes_for_task id db ≡ 0
    reserved_none id db h =
        unfold reserved_bytes_for_task in
        none_reserved (files_of id db) (all_of_all_done (files_of id db) h)

start_next_files-done :
    (settings : Settings) (client : Client) (writable : Bool) (now : ℕ) (task : Task) (w : World)
    → all_done (files_of task.id w.db) ≡ true
    → 1 ≤ settings.per_task_max_active
    → 1 ≤ settings.per_task_max_queued
    → start_next_files settings client writable now task w ≡ (
        if writable
        then move_task task.id Status.ready none w
        else move_task task.id Status.failed (some Reason.storage_not_writable) w)
unfolding start_next_files candidates order_by_index start_files mark_ready count_active_and_queued
start_next_files-done settings client writable now task w h a q =
    let every = all_of_all_done (files_of task.id w.db) h in
    let some_slots : leb (min (settings.per_task_max_active - 0) settings.per_task_max_queued) 0
        ≡ false =
      ground arith in
    elim (Bool-cases writable) [
      | inl ok ↦
          rw
            (
              ok,
              start_next_files,
              none_downloading (files_of task.id w.db) every,
              some_slots,
              none_selected (files_of task.id w.db) every,
              h,
            )
            refl
      | inr bad ↦
          rw (bad, start_next_files, none_downloading (files_of task.id w.db) every, some_slots)
            refl
    ]

move_task-found :
    (status : Status) (reason : Option Reason) (task : Task) (w : World)
    → get_task task.id w.db ≡ some task
    → get_task task.id (move_task task.id status reason w).db
      ≡ some (record task { status = status })
unfolding get_task set_status
move_task-found status reason task w found =
    find-update_first_self (has_task_id task.id) (λ t. record t { status = status }) w.db.tasks task
      (λ t h. h) found

-- The visit of the loop over the active tasks to a downloading task whose files are all DONE.
pub start_active_one :
    (i : Inputs) (task : Task) (w : World)
    → get_task task.id w.db ≡ some task
    → task.status ≡ Status.downloading
    → all_done (files_of task.id w.db) ≡ true
    → 1 ≤ i.settings.per_task_max_active
    → 1 ≤ i.settings.per_task_max_queued
    → get_task task.id (start_active i (task ∷ []) w).db
      ≡ some (record task {
        status =
            if has_room i.settings (i.free task.id) task.id w.db
            then (if i.writable task.id then Status.ready else Status.failed)
            else Status.downloading;
      })
unfolding start_active
start_active_one i task w found running h a q =
    elim (Bool-cases (has_room i.settings (i.free task.id) task.id w.db)) [
      | inl e ↦
          rw
            (
              start_active,
              running,
              can_start_task-done i.settings (i.free task.id) task.id w.db h,
              e,
            )
            (by_directory (i.writable task.id))
      | inr e ↦
          rw
            (
              start_active,
              running,
              can_start_task-done i.settings (i.free task.id) task.id w.db h,
              e,
            )
            (found ∙ ap (λ s. some (record task { status = s })) running)
    ]
  where
    settled : (ok : Bool) → World
    settled ok =
        if ok
        then move_task task.id Status.ready none w
        else move_task task.id Status.failed (some Reason.storage_not_writable) w

    after :
        (ok : Bool)
        → get_task task.id (settled ok).db
          ≡ some (record task { status = if ok then Status.ready else Status.failed })
    after true = move_task-found Status.ready none task w found
    after false = move_task-found Status.failed (some Reason.storage_not_writable) task w found

    by_directory :
        (ok : Bool)
        → get_task task.id (start_next_files i.settings i.client ok i.now task w).db
          ≡ some (record task { status = if ok then Status.ready else Status.failed })
    by_directory ok =
        ap (λ (v : World). get_task task.id v.db)
          (start_next_files-done i.settings i.client ok i.now task w h a q)
        ∙ after ok
