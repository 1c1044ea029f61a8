-- ===== src/Api/Tasks/Readers/Reserved.antt =====
-- The reserved bytes that `task_to_response` of app/api.py shows, against those of worker/scheduler.py.
use all_debrid_proxy.Base.{
  ℕ, ◌+◌, ◌-◌, ◌≤◌, ◌≡◌, ◌≢◌, refl, sym, ap, ◌∙◌, true, false, List, [], ◌∷◌, arith, le→leb, pos,
  filter, sum_of, All, Bool-cases, inl, inr,
}
use all_debrid_proxy.Constants.{FileState, in_reserved_states}
use all_debrid_proxy.Models.{Db, Task, TaskFile, or_zero, files_of}
use all_debrid_proxy.Scheduler.{reserved_of, reserved_bytes_for_task}
use all_debrid_proxy.Worker.Start.{insert_by_index, order_by_index}
use all_debrid_proxy.Worker.Frame.{All-order_by_index}
use all_debrid_proxy.Api.Tasks.Readers.{minus, is_reserving, reserved_difference, task_to_response}

-- The row is past LISTED, and holds no more bytes than its size.
abbrev pub IsWithin : TaskFile → Type 0
IsWithin f = (f.state ≢ FileState.listed) × (f.bytes_downloaded ≤ or_zero f.size_bytes)

abbrev sizes : List TaskFile → ℕ
sizes fs = sum_of (λ (f : TaskFile). or_zero f.size_bytes) (filter is_reserving fs)

abbrev present : List TaskFile → ℕ
present fs = sum_of (λ (f : TaskFile). f.bytes_downloaded) (filter is_reserving fs)

reserving_same :
    (s : FileState)
    → s ≢ FileState.listed
    → (elim s [ FileState.selected ↦ true | FileState.downloading ↦ true | _ ↦ false ])
      ≡ in_reserved_states s
reserving_same FileState.listed h = elim (h refl) [ ]
reserving_same FileState.selected h = refl
reserving_same FileState.downloading h = refl
reserving_same FileState.done h = refl
reserving_same FileState.failed h = refl

sizes-present :
    (fs : List TaskFile) → All IsWithin fs → sizes fs ≡ present fs + sum_of reserved_of fs
unfolding reserved_of
sizes-present [] h = omega arith
sizes-present (f ∷ fs) ((past, fits), hs) =
    let same = reserving_same f.state past in
    let rest = sizes-present fs hs in
    elim (Bool-cases (is_reserving f)) [
      | inl e ↦ rw (e, sym same ∙ e) (omega (arith, rest, fits))
      | inr e ↦ rw (e, sym same ∙ e) (omega (arith, rest))
    ]

minus-add : (a b : ℕ) → minus (a + b) a ≡ pos b
minus-add a b = let e : a + b - a ≡ b = omega arith in rw (le→leb a (a + b) (omega arith), e) refl

sum_of-insert_by_index :
    (g : TaskFile → ℕ) (f : TaskFile) (fs : List TaskFile)
    → sum_of g (insert_by_index f fs) ≡ g f + sum_of g fs
unfolding insert_by_index
sum_of-insert_by_index g f [] = refl
sum_of-insert_by_index g f (h ∷ fs) = ground (arith, sum_of-insert_by_index g f fs)

sum_of-order_by_index :
    (g : TaskFile → ℕ) (fs : List TaskFile) → sum_of g (order_by_index fs) ≡ sum_of g fs
unfolding order_by_index
sum_of-order_by_index g [] = refl
sum_of-order_by_index g (f ∷ fs) =
    omega (arith, sum_of-insert_by_index g f (order_by_index fs), sum_of-order_by_index g fs)

-- For a task whose rows are past LISTED and hold no more bytes than their sizes, the reserved bytes that the
-- API shows are those that the scheduler counts. (The scheduler counts LISTED rows too, and counts nothing
-- for a row that holds too many bytes, where the API counts a negative number.)
pub task_to_response-reserved :
    (t : Task) (db : Db)
    → All IsWithin (files_of t.id db)
    → (task_to_response t db).task_reserved_bytes ≡ pos (reserved_bytes_for_task t.id db)
unfolding task_to_response reserved_difference reserved_bytes_for_task
task_to_response-reserved t db h =
    let files = order_by_index (files_of t.id db) in
    ap (λ a. minus a (present files))
      (sizes-present files (All-order_by_index IsWithin (files_of t.id db) h))
    ∙ minus-add (present files) (sum_of reserved_of files)
    ∙ ap pos (sum_of-order_by_index reserved_of (files_of t.id db))
