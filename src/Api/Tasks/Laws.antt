-- ===== src/Api/Tasks/Laws.antt =====
-- Selecting and deleting tasks (app/api.py).
use all_debrid_proxy.Base.{
  ◌≡◌, ◌≢◌, ◌↔◌, ◌⊎◌, refl, sym, ap, ◌∙◌, Bool, true, false, not, Option, none, some, List, [], ◌∷◌,
  map, arith, if◌then◌else◌, Bool-cases, inl, inr, Text, text_eq, text_eq→eq, text_eq_refl,
  text_eq_iff, elem_of, find, filter, All, ok, err, ◌>>=◌, ◌>>◌, raise_if, >>-eq-ok,
}
use all_debrid_proxy.Base.Unicode.{Unicode}
use all_debrid_proxy.Constants.{Status, FileState, Mode}
use all_debrid_proxy.Models.{Task, TaskFile, get_task, has_task_id, file_of, files_of, set_status}
use all_debrid_proxy.Models.Rows.{find-update_first_self, find-update_first_other, text_eq-ne}
use all_debrid_proxy.World.{World, move_task}
use all_debrid_proxy.Validation.Ids.{validate_task_id}
use all_debrid_proxy.Validation.Invalid.{Validated}
use all_debrid_proxy.Api.Errors.{HttpError, Response}
use all_debrid_proxy.Api.Tasks.{
  or_400, or_error, require_task, select_row, awaits_selection, select_files, remove_task,
  delete_task,
}

-- A request that got past the first two checks.
require_task-eq :
    (U : Unicode) (task_id id : Text) (t : Task) (w : World)
    → validate_task_id U task_id ≡ ok id
    → get_task id w.db ≡ some t
    → require_task U task_id w ≡ ok (id, t)
unfolding require_task
require_task-eq U task_id id t w v g = rw (v, g) refl

found_after_move :
    (id : Text) (status : Status) (w : World) (t : Task)
    → get_task id w.db ≡ some t
    → get_task id (set_status id status w.db) ≡ some (record t { status = status })
unfolding get_task set_status
found_after_move id status w t g =
    find-update_first_self (has_task_id id) (λ t. record t { status = status }) w.db.tasks t
      (λ x h. h) g

selected_world : Text → List Text → World → World
selected_world id ids w =
    move_task id Status.downloading none
      (record w { db = record w.db { files = map (select_row id ids) w.db.files } })

select_files-eq :
    (U : Unicode) (task_id id : Text) (ids : List Text) (t : Task) (w : World)
    → validate_task_id U task_id ≡ ok id
    → get_task id w.db ≡ some t
    → select_files U task_id ids w
      ≡ (raise_if (not (awaits_selection t)) HttpError.not_waiting >> ok (selected_world id ids w))
unfolding select_files selected_world
select_files-eq U task_id id ids t w v g = rw (v, g) refl

-- A handler that answers has found its task.
require_task-eq-ok :
    (U : Unicode) (task_id : Text) (w : World) (found : Text × Task)
    → require_task U task_id w ≡ ok found
    → (validate_task_id U task_id ≡ ok found.0) × (get_task found.0 w.db ≡ some found.1)
unfolding require_task
require_task-eq-ok U task_id w found h = by_id (validate_task_id U task_id) refl h
  where
    by_task :
        (id : Text) (o : Option Task)
        → get_task id w.db ≡ o
        → (or_error HttpError.not_found o >>= λ t. ok (id, t)) ≡ ok found
        → (◌≡◌ {A = Validated Text} (ok id) (ok found.0)) × (get_task found.0 w.db ≡ some found.1)
    by_task id none g h = cc
    by_task id (some t) g h =
        let same : (id, t) ≡ found = inj h in (ap (λ (x : Text × Task). ok x.0) same, rw (← same) g)
      where
        inj : {a b : Text × Task} → ◌≡◌ {A = Response (Text × Task)} (ok a) (ok b) → a ≡ b
        inj h = cc

    by_id :
        (v : Validated Text)
        → validate_task_id U task_id ≡ v
        → (or_400 v >>= λ id. or_error HttpError.not_found (get_task id w.db) >>= λ t. ok (id, t))
          ≡ ok found
        → (v ≡ ok found.0) × (get_task found.0 w.db ≡ some found.1)
    by_id (err e) p h = cc
    by_id (ok id) p h = by_task id (get_task id w.db) refl h

bind-eq-ok :
    {A B : Type 0} (m : Response A) (f : A → Response B) (b : B)
    → (m >>= f) ≡ ok b
    → (a : A) × (m ≡ ok a) × (f a ≡ ok b)
bind-eq-ok (ok a) f b h = (a, refl, h)
bind-eq-ok (err e) f b h = cc

not-false : (b : Bool) → not b ≡ false → b ≡ true
not-false true h = refl
not-false false h = cc

ok_inj : (a b : World) → ◌≡◌ {A = Response World} (ok a) (ok b) → a ≡ b
ok_inj a b h = cc

select_files-eq-ok :
    (U : Unicode) (task_id : Text) (ids : List Text) (w w' : World)
    → select_files U task_id ids w ≡ ok w'
    → (id : Text) × (t : Task) × (validate_task_id U task_id ≡ ok id)
      × (get_task id w.db ≡ some t)
      × (awaits_selection t ≡ true)
      × (w' ≡ selected_world id ids w)
unfolding select_files selected_world
select_files-eq-ok U task_id ids w w' h =
    let (found, r, k) = bind-eq-ok (require_task U task_id w) _ w' h in
    let (v, g) = require_task-eq-ok U task_id w found r in
    let (waits, done) = >>-eq-ok (not (awaits_selection found.1)) HttpError.not_waiting _ k in
    (found.0, found.1, v, g, not-false (awaits_selection found.1) waits, sym (ok_inj _ _ done))

downloading_awaits_nothing :
    (t : Task) → awaits_selection (record t { status = Status.downloading }) ≡ false
downloading_awaits_nothing t = ground arith

found_selected :
    (id : Text) (ids : List Text) (w : World) (t : Task)
    → get_task id w.db ≡ some t
    → get_task id (selected_world id ids w).db ≡ some (record t { status = Status.downloading })
unfolding selected_world
found_selected id ids w t g =
    found_after_move id Status.downloading
      (record w { db = record w.db { files = map (select_row id ids) w.db.files } }) t
      (unfold get_task in g)

abbrev pub IsOneOf : Text → List Text → Type 0
IsOneOf s [] = ⊥
IsOneOf s (t ∷ ts) = (s ≡ t) ⊎ IsOneOf s ts

elem_of_lem : (s : Text) (ts : List Text) → (elem_of s ts ≡ true) ↔ IsOneOf s ts
unfolding elem_of
elem_of_lem s ts = (there s ts, back s ts)
  where
    there : (s : Text) (ts : List Text) → elem_of s ts ≡ true → IsOneOf s ts
    there s [] h = cc
    there s (t ∷ ts) h = elim (Bool-cases (text_eq s t)) [
      | inl e ↦ inl (text_eq→eq s t e)
      | inr e ↦ inr (there s ts (rw e at h))
    ]

    back : (s : Text) (ts : List Text) → IsOneOf s ts → elem_of s ts ≡ true
    back s [] h = elim h [ ]
    back s (t ∷ ts) (inl e) = rw (e, text_eq_refl t) refl
    back s (t ∷ ts) (inr h) = rw (back s ts h) (ground arith)

-- A row after a selection for the task `id`: a named file of the task is SELECTED and else as before, and every
-- other row is as before.
abbrev pub IsChosen : Text → List Text → TaskFile → TaskFile → Type 0
IsChosen id ids f g =
    ((f.task_id ≡ id) × IsOneOf f.id ids × (g ≡ record f { state = FileState.selected }))
    ⊎ (((f.task_id ≢ id) ⊎ (¬ IsOneOf f.id ids)) × (g ≡ f))

-- Two tables have the same number of rows, and `R` holds of the rows in the same places.
abbrev pub RowByRow : (TaskFile → TaskFile → Type 0) → List TaskFile → List TaskFile → Type 0
RowByRow R [] [] = Unit
RowByRow R (f ∷ fs) (g ∷ gs) = R f g × RowByRow R fs gs
RowByRow R _ _ = ⊥

true-false : {b : Bool} → b ≡ true → b ≡ false → ⊥
true-false h g = cc

select_row-IsChosen :
    (id : Text) (ids : List Text) (f : TaskFile) → IsChosen id ids f (select_row id ids f)
select_row-IsChosen id ids f = elim (Bool-cases (file_of id f)) [
  | inr e ↦ rw e (inr (inl (λ same. true-false ((text_eq_iff f.task_id id).1 same) e), refl))
  | inl e ↦ elim (Bool-cases (elem_of f.id ids)) [
    | inl m ↦ rw (e, m) (inl (text_eq→eq f.task_id id e, (elem_of_lem f.id ids).0 m, refl))
    | inr m ↦ rw (e, m) (inr (inr (λ one. true-false ((elem_of_lem f.id ids).1 one) m), refl))
  ]
]

map-RowByRow :
    (id : Text) (ids : List Text) (fs : List TaskFile)
    → RowByRow (IsChosen id ids) fs (map (select_row id ids) fs)
map-RowByRow id ids [] = tt
map-RowByRow id ids (f ∷ fs) = (select_row-IsChosen id ids f, map-RowByRow id ids fs)

-- A selection can be made once: it is accepted only where the id names a task in select mode that waits for it;
-- then the named files of that task are SELECTED, all other files are as before, the task is DOWNLOADING, all
-- other tasks are as before, and a second selection is rejected.
pub select_files_once :
    (U : Unicode) (task_id : Text) (ids ids' : List Text) (w w' : World)
    → select_files U task_id ids w ≡ ok w'
    → (id : Text) × (t : Task) × (validate_task_id U task_id ≡ ok id)
      × (get_task id w.db ≡ some t)
      × (t.mode ≡ Mode.select)
      × (t.status ≡ Status.waiting_selection)
      × RowByRow (IsChosen id ids) w.db.files w'.db.files
      × (get_task id w'.db ≡ some (record t { status = Status.downloading }))
      × ((j : Text) → id ≢ j → get_task j w'.db ≡ get_task j w.db)
      × (select_files U task_id ids' w' ≡ err HttpError.not_waiting)
select_files_once U task_id ids ids' w w' h =
    let (id, t, v, g, waits, e) = select_files-eq-ok U task_id ids w w' h in
    let after : get_task id w'.db ≡ some (record t { status = Status.downloading }) =
      rw e (found_selected id ids w t g) in
    (
      id,
      t,
      v,
      g,
      ground arith,
      ground arith,
      rw e (files_selected id ids w),
      after,
      λ j apart. ap (λ (x : World). get_task j x.db) e ∙ tasks_kept id ids j w apart,
      select_files-eq U task_id id ids' (record t { status = Status.downloading }) w' v after
          ∙ ap (λ b. raise_if (not b) HttpError.not_waiting >> ok (selected_world id ids' w'))
              (downloading_awaits_nothing t),
    )
  where
    files_selected :
        (id : Text) (ids : List Text) (w : World)
        → RowByRow (IsChosen id ids) w.db.files (selected_world id ids w).db.files
    files_selected id ids w = unfold selected_world set_status in map-RowByRow id ids w.db.files

    tasks_kept :
        (id : Text) (ids : List Text) (j : Text) (w : World)
        → id ≢ j
        → get_task j (selected_world id ids w).db ≡ get_task j w.db
    tasks_kept id ids j w apart =
        unfold selected_world get_task set_status in
        find-update_first_other (has_task_id id) (has_task_id j)
          (λ t. record t { status = Status.downloading }) w.db.tasks
          (λ t e.
            let p = text_eq→eq t.id id e in
            let other : text_eq t.id j ≡ false = rw p (text_eq-ne id j apart) in (other, other))

gone :
    (id : Text) (ts : List Task)
    → find (has_task_id id) (filter (λ t. not (has_task_id id t)) ts) ≡ none
gone id [] = refl
gone id (t ∷ ts) = elim (Bool-cases (text_eq t.id id)) [
  | inl e ↦ rw e (gone id ts)
  | inr e ↦ rw (e, e) (gone id ts)
]

others_kept :
    (id j : Text) (ts : List Task)
    → id ≢ j
    → find (has_task_id j) (filter (λ t. not (has_task_id id t)) ts) ≡ find (has_task_id j) ts
others_kept id j [] apart = refl
others_kept id j (t ∷ ts) apart = elim (Bool-cases (text_eq t.id id)) [
  | inl e ↦
      let p = text_eq→eq t.id id e in
      let other : text_eq t.id j ≡ false = rw p (text_eq-ne id j apart) in
      rw (e, other) (others_kept id j ts apart)
  | inr e ↦ rw e (ap (λ o. if text_eq t.id j then some t else o) (others_kept id j ts apart))
]

no_file_left :
    (id : Text) (fs : List TaskFile)
    → All (λ f. file_of id f ≡ false) (filter (λ f. not (file_of id f)) fs)
no_file_left id [] = tt
no_file_left id (f ∷ fs) = elim (Bool-cases (file_of id f)) [
  | inl e ↦ rw e (no_file_left id fs)
  | inr e ↦ rw e (e, no_file_left id fs)
]

other_files :
    (id j : Text) (fs : List TaskFile)
    → id ≢ j
    → filter (file_of j) (filter (λ f. not (file_of id f)) fs) ≡ filter (file_of j) fs
other_files id j [] apart = refl
other_files id j (f ∷ fs) apart = elim (Bool-cases (file_of id f)) [
  | inl e ↦
      let p = text_eq→eq f.task_id id e in
      let other : text_eq f.task_id j ≡ false = rw p (text_eq-ne id j apart) in
      rw (e, other) (other_files id j fs apart)
  | inr e ↦ rw e (ap (λ gs. if file_of j f then f ∷ gs else gs) (other_files id j fs apart))
]

-- What a deletion leaves of the tasks and the files.
pub record IsRemoved (id : Text) (w w' : World) : Type 0 where
  pub task_gone : get_task id w'.db ≡ none
  pub others : (j : Text) → id ≢ j → get_task j w'.db ≡ get_task j w.db
  pub files_gone : All (λ f. file_of id f ≡ false) w'.db.files
  pub files_kept : (j : Text) → id ≢ j → files_of j w'.db ≡ files_of j w.db
  pub users_kept : w'.db.users ≡ w.db.users

-- Deleting a task that exists succeeds, and afterwards it is gone with all its files, while the row of
-- every other task and the rows of its files are as they were, and so are the users.
pub delete_task-IsRemoved :
    (U : Unicode) (task_id id : Text) (t : Task) (w : World)
    → validate_task_id U task_id ≡ ok id
    → get_task id w.db ≡ some t
    → (w' : World) × (delete_task U task_id w ≡ ok w') × IsRemoved id w w'
unfolding delete_task
delete_task-IsRemoved U task_id id t w v g = (
  remove_task id w,
  rw (v, g) refl,
  record {
    task_gone = unfold get_task remove_task in gone id w.db.tasks;
    others = λ j apart. unfold get_task remove_task in others_kept id j w.db.tasks apart;
    files_gone = unfold remove_task in no_file_left id w.db.files;
    files_kept = λ j apart. unfold files_of remove_task in other_files id j w.db.files apart;
    users_kept = unfold remove_task in refl;
  },
)
