-- ===== src/Api/Stats/Laws.antt =====
-- The numbers of `get_system_stats` in app/api.py against each other and against worker/scheduler.py.
use all_debrid_proxy.Base.{
  ℕ, ◌+◌, ◌*◌, ◌≤◌, ◌≡◌, refl, ap, ◌∙◌, sym, List, [], ◌∷◌, map, arith, length, count_if, sum_of,
  filter, All, take, length-take, ltb, zero, suc, ◌⊎◌, Bool-cases, inl, inr, if◌then◌else◌,
}
use all_debrid_proxy.Base.Sorting.{sort_by}
use all_debrid_proxy.Constants.{
  Status, FileState, status_eq, in_active_statuses, in_completed_statuses,
}
use all_debrid_proxy.Models.{Db, Task, TaskFile, file_of, files_of, or_zero}
use all_debrid_proxy.Scheduler.{reserved_of, reserved_bytes_for_task, global_reserved_bytes}
use all_debrid_proxy.Api.Stats.{
  ActiveFile, count_tasks, with_status, reserved_sum, get_system_stats, active_file,
  active_downloads, less_done, in_state, shown_bytes,
}

-- A status is one of the six.
one_of_six :
    (s : Status)
    → (if status_eq s Status.queued then 1 else 0)
        + (if status_eq s Status.resolving then 1 else 0)
        + (if in_active_statuses s then 1 else 0)
        + (if in_completed_statuses s then 1 else 0)
        + (if status_eq s Status.failed then 1 else 0)
        + (if status_eq s Status.canceled then 1 else 0)
      ≡ 1
one_of_six Status.queued = refl
one_of_six Status.resolving = refl
one_of_six Status.waiting_selection = refl
one_of_six Status.downloading = refl
one_of_six Status.ready = refl
one_of_six Status.done = refl
one_of_six Status.completed = refl
one_of_six Status.failed = refl
one_of_six Status.canceled = refl

one_of_two :
    (s : Status)
    → (if status_eq s Status.downloading then 1 else 0)
        + (if status_eq s Status.waiting_selection then 1 else 0)
      ≡ (if in_active_statuses s then 1 else 0)
one_of_two Status.queued = refl
one_of_two Status.resolving = refl
one_of_two Status.waiting_selection = refl
one_of_two Status.downloading = refl
one_of_two Status.ready = refl
one_of_two Status.done = refl
one_of_two Status.completed = refl
one_of_two Status.failed = refl
one_of_two Status.canceled = refl

counts-total :
    (ts : List Task)
    → with_status Status.queued ts
        + with_status Status.resolving ts
        + count_if (λ t. in_active_statuses t.status) ts
        + count_if (λ t. in_completed_statuses t.status) ts
        + with_status Status.failed ts
        + with_status Status.canceled ts
      ≡ length ts
unfolding with_status
counts-total [] = refl
counts-total (t ∷ ts) = omega (arith, one_of_six t.status, counts-total ts)

counts-active :
    (ts : List Task)
    → with_status Status.downloading ts + with_status Status.waiting_selection ts
      ≡ count_if (λ t. in_active_statuses t.status) ts
unfolding with_status
counts-active [] = refl
counts-active (t ∷ ts) = omega (arith, one_of_two t.status, counts-active ts)

-- Every task is counted once, as queued, resolving, active, completed, failed or canceled, and the active
-- ones as downloading or waiting for a selection.
count_tasks-total :
    (ts : List Task)
    → let c = count_tasks ts in
      (c.queued + c.resolving + c.active + c.completed + c.failed + c.canceled ≡ c.total)
      × (c.downloading + c.waiting_selection ≡ c.active)
unfolding count_tasks
count_tasks-total ts = (counts-total ts, counts-active ts)

reserved_sum-eq : (fs : List TaskFile) → reserved_sum fs ≡ sum_of reserved_of fs
unfolding reserved_sum reserved_of
reserved_sum-eq [] = refl
reserved_sum-eq (f ∷ fs) = ground (arith, reserved_sum-eq fs)

-- One file's part of a sum over the tasks.
sum_of-owners :
    (f : TaskFile) (fs : List TaskFile) (ts : List Task)
    → sum_of (λ (t : Task). sum_of reserved_of (filter (file_of t.id) (f ∷ fs))) ts
      ≡ count_if (λ (t : Task). file_of t.id f) ts * reserved_of f
        + sum_of (λ (t : Task). sum_of reserved_of (filter (file_of t.id) fs)) ts
sum_of-owners f fs [] = omega arith
sum_of-owners f fs (t ∷ ts) = elim (Bool-cases (file_of t.id f)) [
  | inl e ↦ rw e (omega (arith, sum_of-owners f fs ts))
  | inr e ↦ rw e (omega (arith, sum_of-owners f fs ts))
]

-- The file belongs to exactly one task.
abbrev pub HasOneTask : List Task → TaskFile → Type 0
HasOneTask ts f = count_if (λ (t : Task). file_of t.id f) ts ≡ 1

sum_of-tasks :
    (fs : List TaskFile) (ts : List Task)
    → All (HasOneTask ts) fs
    → sum_of (λ (t : Task). sum_of reserved_of (filter (file_of t.id) fs)) ts
      ≡ sum_of reserved_of fs
sum_of-tasks [] ts h = nothing ts
  where
    nothing :
        (ts : List Task)
        → sum_of (λ (t : Task). sum_of reserved_of (filter (file_of t.id) [])) ts ≡ 0
    nothing [] = refl
    nothing (t ∷ ts) = omega (arith, nothing ts)
sum_of-tasks (f ∷ fs) ts (h1, hs) =
    sum_of-owners f fs ts ∙ rw h1 (omega (arith, sum_of-tasks fs ts hs))

-- If every file belongs to exactly one task, the reserved bytes that the dashboard shows are those that
-- the scheduler adds up over the tasks before it lets a task go on.
pub get_system_stats-reserved :
    (percent : ℕ → ℕ → ℕ) (db : Db)
    → All (HasOneTask db.tasks) db.files
    → (get_system_stats percent db).reserved_bytes ≡ global_reserved_bytes db
unfolding get_system_stats global_reserved_bytes reserved_bytes_for_task files_of
get_system_stats-reserved percent db h =
    reserved_sum-eq db.files ∙ sym (sum_of-tasks db.files db.tasks h)

abbrev pub IsShown : ActiveFile → Type 0
IsShown a = (a.progress_pct ≤ 100) × ((a.size_bytes ≡ 0) ⊎ (a.downloaded_bytes ≤ a.size_bytes))

active_file-IsShown : (percent : ℕ → ℕ → ℕ) (f : TaskFile) → IsShown (active_file percent f)
unfolding active_file
active_file-IsShown percent f =
    let size = or_zero f.size_bytes in
    (
      capped (if ltb 0 size then percent (shown_bytes size f.bytes_downloaded) size else 0),
      within size f.bytes_downloaded,
    )
  where
    capped : (p : ℕ) → (if ltb 100 p then 100 else p) ≤ 100
    capped p = ground arith

    within : (size have : ℕ) → (size ≡ 0) ⊎ (shown_bytes size have ≤ size)
    within zero have = inl refl
    within (suc n) have = inr (ground arith)

map-IsShown :
    (percent : ℕ → ℕ → ℕ) (fs : List TaskFile) → All IsShown (map (active_file percent) fs)
map-IsShown percent [] = tt
map-IsShown percent (f ∷ fs) = (active_file-IsShown percent f, map-IsShown percent fs)

length-map {ℓ κ} :
    {A : Type ℓ} {B : Type κ} (f : A → B) (xs : List A) → length (map f xs) ≡ length xs
length-map f [] = refl
length-map f (x ∷ xs) = ap suc (length-map f xs)

-- The dashboard lists at most 20 running downloads; none shows more than 100 percent, and none with a known
-- size more bytes than its size, whatever the floating-point percentage is.
active_downloads-IsShown :
    (percent : ℕ → ℕ → ℕ) (fs : List TaskFile)
    → (length (active_downloads percent fs) ≤ 20) × All IsShown (active_downloads percent fs)
unfolding active_downloads
active_downloads-IsShown percent fs =
    let running = sort_by less_done (filter (in_state FileState.downloading) fs) in
    (
      omega (arith, length-map (active_file percent) (take 20 running), length-take 20 running),
      map-IsShown percent (take 20 running),
    )
