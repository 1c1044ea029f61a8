-- ===== src/Worker/Skipped/Resolved.antt =====
-- What `resolve_task` of worker/worker.py leaves of a file row of another task.
use all_debrid_proxy.Base.{
  ℕ, ◌+◌, ◌≡◌, ◌≢◌, refl, sym, ap, ◌∙◌, Bool, true, false, ◌&&◌, Option, none, some, List, [], ◌∷◌,
  ◌++◌, map, if◌then◌else◌, Bool-cases, inl, inr, Text, text_eq, text_eq→eq, text_eq_refl, find, ok,
  err,
}
use all_debrid_proxy.Base.Unicode.{Unicode}
use all_debrid_proxy.Constants.{Status, FileState, Mode}
use all_debrid_proxy.Models.{Task, TaskFile, files_of, file_of, get_file, has_file_id, has_task_id}
use all_debrid_proxy.Models.Rows.{All-update_first, text_eq-ne}
use all_debrid_proxy.World.{World, move_task}
use all_debrid_proxy.Validation.Names.{validate_file_name}
use all_debrid_proxy.Validation.Invalid.{Validated}
use all_debrid_proxy.Worker.Client.{FileInfo}
use all_debrid_proxy.Worker.Resolve.{
  name_or_default, new_file, has_index, set_provider_ref, Listing, list_file, list_files,
  list_found, select_all, finish_resolve,
}
use all_debrid_proxy.Worker.Skipped.{
  IsLeft, IsBehind, IsStuck, NotReady, move_task-IsBehind, is_ready_or_queued,
}

find-append :
    (p : TaskFile → Bool) (fs gs : List TaskFile) (row : TaskFile)
    → find p fs ≡ some row
    → find p (fs ++ gs) ≡ some row
find-append p [] gs row h = cc
find-append p (f ∷ fs) gs row h = elim (Bool-cases (p f)) [
  | inl e ↦ rw e (rw e at h)
  | inr e ↦ rw e (find-append p fs gs row (rw e at h))
]

find-map :
    (p : TaskFile → Bool) (g : TaskFile → TaskFile) (fs : List TaskFile) (row : TaskFile)
    → ((f : TaskFile) → p (g f) ≡ p f)
    → find p fs ≡ some row
    → find p (map g fs) ≡ some (g row)
find-map p g [] row keep h = cc
find-map p g (f ∷ fs) row keep h = elim (Bool-cases (p f)) [
  | inl e ↦ rw (keep f ∙ e) (ap (λ x. some (g x)) (some_inj (rw e at h)))
  | inr e ↦ rw (keep f ∙ e) (find-map p g fs row keep (rw e at h))
]
  where
    some_inj : {a b : TaskFile} → some a ≡ some b → a ≡ b
    some_inj h = cc

module _ (k id : Text) (U : Unicode) (new_id : ℕ → Text) (task : Task)
    (apart : text_eq task.id id ≡ false) where
  pub safe : (status : Status) → (text_eq task.id id && is_ready_or_queued status) ≡ false
  safe status = rw apart refl

  pub IsLeft-append : (fs gs : List TaskFile) → IsLeft k id fs → IsLeft k id (fs ++ gs)
  unfolding get_file
  IsLeft-append fs gs h = record {
    row = h.row;
    found = find-append (has_file_id k) fs gs h.row h.found;
    owned = h.owned;
    not_selected = h.not_selected;
    not_downloading = h.not_downloading;
    not_done = h.not_done;
  }

  list_file-IsLeft :
      (i : ℕ) (name : Text) (size : ℕ) (o : Option TaskFile) (l : Listing)
      → IsLeft k id l.db.files
      → IsLeft k id (list_file (new_id i) task.id i name size o l).db.files
  list_file-IsLeft i name size (some tf) l h = h
  list_file-IsLeft i name size none l h =
      IsLeft-append l.db.files (new_file (new_id i) task.id i name size ∷ []) h

  list_file_tasks :
      (i : ℕ) (name : Text) (size : ℕ) (o : Option TaskFile) (l : Listing)
      → (list_file (new_id i) task.id i name size o l).db.tasks ≡ l.db.tasks
  list_file_tasks i name size (some tf) l = refl
  list_file_tasks i name size none l = refl

  -- The listing only adds rows, and leaves the tasks.
  list_files-IsLeft :
      (existing : List TaskFile) (i : ℕ) (fis : List FileInfo) (l : Listing)
      → IsLeft k id l.db.files
      → IsLeft k id (list_files U new_id task.id existing i fis l).db.files
        × ((list_files U new_id task.id existing i fis l).db.tasks ≡ l.db.tasks)
  unfolding list_files
  list_files-IsLeft existing i [] l h = (h, refl)
  list_files-IsLeft existing i (fi ∷ fis) l h =
      let (a, b) = entry (validate_file_name U name) in
      let (rest, same) =
        list_files-IsLeft existing (i + 1) fis (next (validate_file_name U name)) a in
      (rest, same ∙ b)
    where
      name : Text
      name = name_or_default i fi.name

      next : Validated Text → Listing
      next v = elim v [
        | err e ↦ l
        | ok n ↦ list_file (new_id i) task.id i name fi.size (find (has_index i) existing) l
      ]

      entry :
          (v : Validated Text) → IsLeft k id (next v).db.files × ((next v).db.tasks ≡ l.db.tasks)
      entry (err e) = (h, refl)
      entry (ok n) = (
        list_file-IsLeft i name fi.size (find (has_index i) existing) l h,
        list_file_tasks i name fi.size (find (has_index i) existing) l,
      )

  pub list_found-IsBehind :
      (files : List FileInfo) (w : World)
      → IsBehind k id w
      → IsBehind k id (list_found U new_id task.id files w)
  unfolding list_found
  list_found-IsBehind files w h =
      let (left, same) =
        list_files-IsLeft (files_of task.id w.db) 0 files (record { db = w.db; listed = [] })
          h.left in
      record { left = left; not_ready = rw same h.not_ready }

  pub set_provider_ref-IsBehind :
      (ref : Text) (w : World) → IsBehind k id w → IsBehind k id (set_provider_ref task.id ref w)
  unfolding set_provider_ref
  set_provider_ref-IsBehind ref w h = record {
    left = h.left;
    not_ready =
        All-update_first (NotReady id) (has_task_id task.id)
          (λ t. record t { provider_ref = some ref }) w.db.tasks (λ t e n. n) h.not_ready;
  }

  pub set_provider_ref-IsStuck :
      (ref : Text) (w : World) → IsStuck k id w → IsStuck k id (set_provider_ref task.id ref w)
  unfolding set_provider_ref
  set_provider_ref-IsStuck ref w h = record {
    behind = set_provider_ref-IsBehind ref w h.behind;
    unique = h.unique;
  }

  select_all-IsBehind : (w : World) → IsBehind k id w → IsBehind k id (select_all task.id w)
  unfolding select_all get_file
  select_all-IsBehind w h = record {
    left = record {
      row = h.left.row;
      found =
          find-map (has_file_id k) selected w.db.files h.left.row keep h.left.found
          ∙ ap some (rw other refl);
      owned = h.left.owned;
      not_selected = h.left.not_selected;
      not_downloading = h.left.not_downloading;
      not_done = h.left.not_done;
    };
    not_ready = h.not_ready;
  }
    where
      selected : TaskFile → TaskFile
      selected f = if file_of task.id f then record f { state = FileState.selected } else f

      keep : (f : TaskFile) → has_file_id k (selected f) ≡ has_file_id k f
      keep f = elim (Bool-cases (file_of task.id f)) [ inl e ↦ rw e refl | inr e ↦ rw e refl ]

      differ : id ≢ task.id
      differ same = true_false (ap (λ i. text_eq i id) (sym same) ∙ text_eq_refl id) apart
        where
          true_false : {b : Bool} → b ≡ true → b ≡ false → ⊥
          true_false h g = cc

      other : file_of task.id h.left.row ≡ false
      other =
          ap (λ i. text_eq i task.id) (text_eq→eq h.left.row.task_id id h.left.owned)
          ∙ text_eq-ne id task.id differ

  pub finish_resolve-IsBehind :
      (w : World) → IsBehind k id w → IsBehind k id (finish_resolve task w)
  unfolding finish_resolve
  finish_resolve-IsBehind w h = by_mode task.mode
    where
      by_mode :
          (m : Mode)
          → IsBehind k id (elim m [
            | Mode.select ↦ move_task task.id Status.waiting_selection none w
            | Mode.auto ↦ move_task task.id Status.downloading none (select_all task.id w)
          ])
      by_mode Mode.select =
          move_task-IsBehind k id task.id Status.waiting_selection none w
            (safe Status.waiting_selection) h
      by_mode Mode.auto =
          move_task-IsBehind k id task.id Status.downloading none (select_all task.id w)
            (safe Status.downloading) (select_all-IsBehind w h)
