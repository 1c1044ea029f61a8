-- ===== src/Worker/Finished/Pass.antt =====
-- The loop of worker/worker.py over the active tasks, at a task whose files are all DONE.
use all_debrid_proxy.Base.{
  ℕ, ◌≤◌, ◌≡◌, refl, ap, ◌∙◌, Bool, true, false, not, ◌&&◌, Option, none, some, List, [], ◌∷◌, leb,
  if◌then◌else◌, Bool-cases, inl, inr, Text, text_eq, text_eq→eq, All,
}
use all_debrid_proxy.Constants.{Status, status_eq}
use all_debrid_proxy.Models.{
  Task, TaskFile, get_task, has_task_id, files_of, update_file, set_status,
}
use all_debrid_proxy.Models.Rows.{find-update_first_other}
use all_debrid_proxy.World.{World, Reason, move_task}
use all_debrid_proxy.Scheduler.{Settings, can_start_task, count_active_and_queued}
use all_debrid_proxy.Worker.Client.{Client}
use all_debrid_proxy.Worker.Start.{
  all_done, candidates, unlock, enqueue, Started, start_unlocked, start_file, start_files,
  mark_ready, free_slots, start_next_files,
}
use all_debrid_proxy.Worker.Start.Limits.{start_files_stops, start_files_goes_on}
use all_debrid_proxy.Worker.Loop.{Inputs, start_active}
use all_debrid_proxy.Worker.Finished.{has_room, start_active_one}

-- Starting files changes no task.
start_unlocked_tasks :
    (client : Client) (now : ℕ) (id : Text) (f : TaskFile) (url : Option Text) (s : Started)
    → (start_unlocked client now id f url s).world.db.tasks ≡ s.world.db.tasks
unfolding update_file
start_unlocked_tasks client now id f none s = refl
start_unlocked_tasks client now id f (some url) s = enqueued (client.add_uri url f.name) _ refl
  where
    enqueued :
        (b : Bool) (w : World)
        → w.db.tasks ≡ s.world.db.tasks
        → (enqueue b id f s.started w).world.db.tasks ≡ s.world.db.tasks
    enqueued true w e = e
    enqueued false w e = e

start_files_tasks :
    (client : Client) (now : ℕ) (task : Task) (n : ℕ) (fs : List TaskFile) (s : Started)
    → (start_files client now task n fs s).world.db.tasks ≡ s.world.db.tasks
unfolding start_files start_file
start_files_tasks client now task n [] s = refl
start_files_tasks client now task n (f ∷ fs) s = elim (Bool-cases (leb n s.started)) [
  | inl e ↦ rw (start_files_stops client now task n f fs s e) refl
  | inr e ↦ rw (start_files_goes_on client now task n f fs s e) (
      start_files_tasks client now task n fs (start_file client now task f s)
      ∙ start_unlocked_tasks client now task.id f (unlock client task f) s)
]

module _ (j : Text) where
  move_task_other :
      (i : Text) (status : Status) (reason : Option Reason) (w : World)
      → text_eq i j ≡ false
      → get_task j (move_task i status reason w).db ≡ get_task j w.db
  unfolding get_task set_status
  move_task_other i status reason w apart =
      find-update_first_other (has_task_id i) (has_task_id j) (λ t. record t { status = status })
        w.db.tasks
        (λ t e. let other = ap (λ x. text_eq x j) (text_eq→eq t.id i e) ∙ apart in (other, other))

  mark_ready_other :
      (i : Text) (w : World)
      → text_eq i j ≡ false
      → get_task j (mark_ready i w).db ≡ get_task j w.db
  unfolding mark_ready
  mark_ready_other i w apart = elim (Bool-cases (all_done (files_of i w.db))) [
    | inl d ↦ rw d (move_task_other i Status.ready none w apart)
    | inr d ↦ rw d refl
  ]

  start_next_files_other :
      (settings : Settings) (client : Client) (writable : Bool) (now : ℕ) (t : Task) (w : World)
      → text_eq t.id j ≡ false
      → get_task j (start_next_files settings client writable now t w).db ≡ get_task j w.db
  unfolding start_next_files get_task
  start_next_files_other settings client writable now t w apart = branches (leb n 0) writable
    where
      n : ℕ
      n = free_slots settings (count_active_and_queued t.id w.db).0

      s : Started
      s = start_files client now t n (candidates t.id w.db) (record { world = w; started = 0 })

      branches :
          (full ok : Bool)
          → get_task j
              (if full
                then w
                else if not ok
                then move_task t.id Status.failed (some Reason.storage_not_writable) w
                else mark_ready t.id s.world).db
            ≡ get_task j w.db
      branches true ok = refl
      branches false false =
          move_task_other t.id Status.failed (some Reason.storage_not_writable) w apart
      branches false true =
          mark_ready_other t.id s.world apart
          ∙ ap (λ ts. get_task j (record w.db { tasks = ts }))
              (start_files_tasks client now t n (candidates t.id w.db)
                (record { world = w; started = 0 }))

  -- The visits to other tasks leave a task as it is.
  start_active_others :
      (i : Inputs) (ts : List Task) (w : World)
      → All (λ (t : Task). text_eq t.id j ≡ false) ts
      → get_task j (start_active i ts w).db ≡ get_task j w.db
  unfolding start_active
  start_active_others i [] w h = refl
  start_active_others i (t ∷ ts) w (h, hs) =
      start_active_others i ts _ hs
      ∙ visit (
          not (status_eq t.status Status.waiting_selection)
          && can_start_task i.settings (i.free t.id) t.id w.db)
    where
      visit :
          (b : Bool)
          → get_task j
              (if b then start_next_files i.settings i.client (i.writable t.id) i.now t w else w).db
            ≡ get_task j w.db
      visit true = start_next_files_other i.settings i.client (i.writable t.id) i.now t w h
      visit false = refl

-- The worker's loop over the active tasks from a downloading task on whose files are all DONE, with other tasks
-- behind it and limits of at least one download per task. Let `w` be what the tables hold when the loop comes to
-- the task. If the free space does not hold the reserved bytes of all tasks and, once more, the whole size of this
-- task, or is below the floor, the task is still DOWNLOADING after the loop; else it is READY, or FAILED if its
-- directory is not writable.
pub start_active-done :
    (i : Inputs) (task : Task) (ts : List Task) (w : World)
    → All (λ (t : Task). text_eq t.id task.id ≡ false) ts
    → get_task task.id w.db ≡ some task
    → task.status ≡ Status.downloading
    → all_done (files_of task.id w.db) ≡ true
    → 1 ≤ i.settings.per_task_max_active
    → 1 ≤ i.settings.per_task_max_queued
    → get_task task.id (start_active i (task ∷ ts) w).db
      ≡ some (record task {
        status =
            if has_room i.settings (i.free task.id) task.id w.db
            then (if i.writable task.id then Status.ready else Status.failed)
            else Status.downloading;
      })
unfolding start_active
start_active-done i task ts w apart found running h a q =
    start_active_others task.id i ts (start_active i (task ∷ []) w) apart
    ∙ start_active_one i task w found running h a q
