-- ===== src/Worker/Start/Limits.antt =====
-- The number of a task's running downloads under `start_next_files` (worker/worker.py).
use all_debrid_proxy.Base.{
  ℕ, ◌+◌, ◌≤◌, ◌<◌, ◌≡◌, refl, max, Bool, true, false, not, ◌&&◌, Option, none, some, List, [], ◌∷◌,
  arith, leb, if◌then◌else◌, Bool-cases, inl, inr, Text, length, filter, count_if,
}
use all_debrid_proxy.Constants.{Status, FileState}
use all_debrid_proxy.Models.{
  Db, Task, TaskFile, files_of, file_of, has_file_id, update_file, set_status,
}
use all_debrid_proxy.Models.Rows.{
  count_if-update_first-le, count_if-update_first-le_self, update_first-update_first,
}
use all_debrid_proxy.World.{World, Reason, move_task}
use all_debrid_proxy.Scheduler.{Settings, is_downloading, count_active_and_queued}
use all_debrid_proxy.Worker.Client.{Client}
use all_debrid_proxy.Worker.Start.{
  candidates, unlock, begin_download, Started, start_unlocked, start_file, start_files, mark_ready,
  free_slots, start_next_files,
}

length-filter-eq-count_if :
    (p : TaskFile → Bool) (fs : List TaskFile) → length (filter p fs) ≡ count_if p fs
length-filter-eq-count_if p [] = refl
length-filter-eq-count_if p (f ∷ fs) = ground (arith, length-filter-eq-count_if p fs)

count_if-filter :
    (p q : TaskFile → Bool) (fs : List TaskFile)
    → count_if q (filter p fs) ≡ count_if (λ f. p f && q f) fs
count_if-filter p q [] = refl
count_if-filter p q (f ∷ fs) = ground (arith, count_if-filter p q fs)

-- The running downloads of a task.
pub downloads_of : Text → Db → ℕ
downloads_of id db = count_if is_downloading (files_of id db)

abbrev runs_for : Text → TaskFile → Bool
runs_for id f = file_of id f && is_downloading f

downloads_of-eq : (id : Text) (db : Db) → downloads_of id db ≡ count_if (runs_for id) db.files
unfolding downloads_of files_of
downloads_of-eq id db = count_if-filter (file_of id) is_downloading db.files

active-eq : (id : Text) (db : Db) → (count_active_and_queued id db).0 ≡ downloads_of id db
unfolding count_active_and_queued downloads_of
active-eq id db = length-filter-eq-count_if is_downloading (files_of id db)

and_false : (b : Bool) → (b && false) ≡ false
and_false b = ground arith

abbrev fail_row : TaskFile → TaskFile
fail_row f = record f { state = FileState.failed }

not_running : (id : Text) (f : TaskFile) → runs_for id (fail_row f) ≡ false
not_running id f = and_false (file_of id f)

-- One round starts at most one download, and counts it.
abbrev IsCounted : Text → Started → Started → Type 0
IsCounted id s s' =
    (count_if (runs_for id) s'.world.db.files + s.started
      ≤ count_if (runs_for id) s.world.db.files + s'.started)
    × (s.started ≤ s'.started)
    × (s'.started ≤ s.started + 1)

enqueued-IsCounted :
    (id url name : Text) (client : Client) (now : ℕ) (f : TaskFile) (s : Started) (accepted : Bool)
    → client.add_uri url f.name ≡ accepted
    → IsCounted id s (start_unlocked client now id f (some url) s)
unfolding update_file
enqueued-IsCounted id url name client now f s true e = rw e (
  omega (
    arith,
    count_if-update_first-le (has_file_id f.id) (runs_for id) (begin_download url now)
        s.world.db.files,
  ),
  omega arith,
  omega arith,
)
enqueued-IsCounted id url name client now f s false e =
    rw
      (
        e,
        update_first-update_first (has_file_id f.id) (begin_download url now) fail_row
            s.world.db.files (λ x h. h),
      )
      (
        omega (
          arith,
          count_if-update_first-le_self (has_file_id f.id) (runs_for id)
              (λ x. fail_row (begin_download url now x)) s.world.db.files
              (λ x. not_running id (begin_download url now x)),
        ),
        omega arith,
        omega arith,
      )

start_unlocked-IsCounted :
    (client : Client) (now : ℕ) (id : Text) (f : TaskFile) (url : Option Text) (s : Started)
    → IsCounted id s (start_unlocked client now id f url s)
unfolding update_file
start_unlocked-IsCounted client now id f none s = (
  omega (
    arith,
    count_if-update_first-le_self (has_file_id f.id) (runs_for id) fail_row s.world.db.files
        (not_running id),
  ),
  omega arith,
  omega arith,
)
start_unlocked-IsCounted client now id f (some url) s =
    enqueued-IsCounted id url f.name client now f s (client.add_uri url f.name) refl

start_file-IsCounted :
    (client : Client) (now : ℕ) (task : Task) (f : TaskFile) (s : Started)
    → IsCounted task.id s (start_file client now task f s)
unfolding start_file
start_file-IsCounted client now task f s =
    start_unlocked-IsCounted client now task.id f (unlock client task f) s

abbrev IsBounded : Text → ℕ → Started → Started → Type 0
IsBounded id n s s' =
    (count_if (runs_for id) s'.world.db.files + s.started
      ≤ count_if (runs_for id) s.world.db.files + s'.started)
    × (s.started ≤ s'.started)
    × (s'.started ≤ max s.started n)

pub start_files_stops :
    (client : Client) (now : ℕ) (task : Task) (n : ℕ) (f : TaskFile) (fs : List TaskFile)
    (s : Started)
    → leb n s.started ≡ true
    → start_files client now task n (f ∷ fs) s ≡ s
unfolding start_files
start_files_stops client now task n f fs s e = rw e refl

pub start_files_goes_on :
    (client : Client) (now : ℕ) (task : Task) (n : ℕ) (f : TaskFile) (fs : List TaskFile)
    (s : Started)
    → leb n s.started ≡ false
    → start_files client now task n (f ∷ fs) s
      ≡ start_files client now task n fs (start_file client now task f s)
unfolding start_files
start_files_goes_on client now task n f fs s e = rw e refl

start_files-IsBounded :
    (client : Client) (now : ℕ) (task : Task) (n : ℕ) (fs : List TaskFile) (s : Started)
    → IsBounded task.id n s (start_files client now task n fs s)
start_files-IsBounded client now task n [] s = unfold start_files in omega arith
start_files-IsBounded client now task n (f ∷ fs) s = elim (Bool-cases (leb n s.started)) [
  | inl e ↦ rw (start_files_stops client now task n f fs s e) (omega arith)
  | inr e ↦
      let s' = start_file client now task f s in
      let step = start_file-IsCounted client now task f s in
      let more = start_files-IsBounded client now task n fs s' in
      rw (start_files_goes_on client now task n f fs s e)
        (omega (arith, step, more, leb-false n s.started e))
]
  where
    leb-false : (a b : ℕ) → leb a b ≡ false → b < a
    leb-false a b h = ground arith

downloads_of-mark_ready :
    (id : Text) (w : World) → downloads_of id (mark_ready id w).db ≡ downloads_of id w.db
unfolding mark_ready downloads_of set_status
downloads_of-mark_ready id w = ground arith

downloads_of-set_status :
    (id : Text) (status : Status) (db : Db)
    → downloads_of id (set_status id status db) ≡ downloads_of id db
unfolding downloads_of set_status files_of
downloads_of-set_status id status db = refl

started-le-slots :
    (settings : Settings) (client : Client) (now : ℕ) (task : Task) (w : World)
    → let active = downloads_of task.id w.db in
      downloads_of task.id
        (start_files client now task
          (free_slots settings active)
          (candidates task.id w.db)
          (record { world = w; started = 0 })).world.db
      ≤ max active settings.per_task_max_active
started-le-slots settings client now task w =
    let n = free_slots settings (downloads_of task.id w.db) in
    let s : Started = record { world = w; started = 0 } in
    let s' = start_files client now task n (candidates task.id w.db) s in
    omega (
      arith,
      start_files-IsBounded client now task n (candidates task.id w.db) s,
      downloads_of-eq task.id w.db,
      downloads_of-eq task.id s'.world.db,
    )

-- After `start_next_files` a task has at most PER_TASK_MAX_ACTIVE running downloads, or no more than it
-- had before, however the provider and the aria2 daemon answer.
pub start_next_files-limit :
    (settings : Settings) (client : Client) (writable : Bool) (now : ℕ) (task : Task) (w : World)
    → downloads_of task.id (start_next_files settings client writable now task w).db
      ≤ max (downloads_of task.id w.db) settings.per_task_max_active
start_next_files-limit settings client writable now task w =
    unfold start_next_files in rw (active-eq task.id w.db) (branches (leb n 0) writable)
  where
    n : ℕ
    n = free_slots settings (downloads_of task.id w.db)

    s' : Started
    s' = start_files client now task n (candidates task.id w.db) (record { world = w; started = 0 })

    branches :
        (full ok : Bool)
        → downloads_of task.id
            (if full
              then w
              else if not ok
              then move_task task.id Status.failed (some Reason.storage_not_writable) w
              else mark_ready task.id s'.world).db
          ≤ max (downloads_of task.id w.db) settings.per_task_max_active
    branches true ok = omega arith
    branches false true =
        rw (downloads_of-mark_ready task.id s'.world) (started-le-slots settings client now task w)
    branches false false = rw (downloads_of-set_status task.id Status.failed w.db) (omega arith)
