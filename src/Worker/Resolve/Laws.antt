-- ===== src/Worker/Resolve/Laws.antt =====
-- Where `resolve_task` leaves a task, and what it lists.
use all_debrid_proxy.Base.{
  ℕ, zero, suc, ◌+◌, ◌<◌, ◌≡◌, refl, sym, ap, ◌∙◌, Bool, true, false, Option, none, some, List, [],
  ◌∷◌, arith, Bool-cases, Option-cases, inl, inr, ◌⊎◌, Text, text_eq, find, All, All-append, ok,
  err,
}
use all_debrid_proxy.Base.Unicode.{Unicode}
use all_debrid_proxy.Constants.{Status, SourceType, Mode, max_resolve_attempts}
use all_debrid_proxy.Models.{
  Task, TaskFile, get_task, has_task_id, set_status, update_first, files_of,
}
use all_debrid_proxy.World.{World, Reason, move_task}
use all_debrid_proxy.Validation.Invalid.{Validated}
use all_debrid_proxy.Validation.Names.{validate_file_name}
use all_debrid_proxy.Validation.Names.Laws.{validate_file_name-eq-ok}
use all_debrid_proxy.Worker.Client.{Client, FileInfo}
use all_debrid_proxy.Worker.Resolve.{
  name_or_default, new_file, has_index, Listing, list_file, list_files, no_files, list_found,
  polled, poll, select_all, set_provider_ref, link_name, list_link, finish_resolve, after_poll,
  wait_out, upload_ref, store_ref, resolve_magnet, resolve_link, resolve_task,
}

-- The statuses in which `resolve_task` leaves a task.
abbrev pub is_settled : Status → Bool
is_settled Status.failed = true
is_settled Status.waiting_selection = true
is_settled Status.downloading = true
is_settled _ = false

-- The task is gone, or has one of these statuses.
abbrev pub IsSettled : Text → World → Type 0
IsSettled id w =
    (get_task id w.db ≡ none)
    ⊎ ((t : Task) × (get_task id w.db ≡ some t) × (is_settled t.status ≡ true))

rows_settled :
    (id : Text) (status : Status) (ts : List Task)
    → is_settled status ≡ true
    → let found =
        find
          (has_task_id id)
          (update_first (has_task_id id) (λ t. record t { status = status }) ts) in
      (found ≡ none) ⊎ ((t : Task) × (found ≡ some t) × (is_settled t.status ≡ true))
unfolding update_first
rows_settled id status [] h = inl refl
rows_settled id status (t ∷ ts) h = elim (Bool-cases (text_eq t.id id)) [
  | inl e ↦ rw (e, e) (inr (record t { status = status }, refl, h))
  | inr e ↦ rw (e, e) (rows_settled id status ts h)
]

move_task-IsSettled :
    (id : Text) (status : Status) (reason : Option Reason) (w : World)
    → is_settled status ≡ true
    → IsSettled id (move_task id status reason w)
unfolding get_task set_status
move_task-IsSettled id status reason w h = rows_settled id status w.db.tasks h

finish_resolve-IsSettled : (task : Task) (w : World) → IsSettled task.id (finish_resolve task w)
unfolding finish_resolve
finish_resolve-IsSettled task w = by_mode task.mode
  where
    by_mode :
        (m : Mode)
        → IsSettled task.id (elim m [
          | Mode.select ↦ move_task task.id Status.waiting_selection none w
          | Mode.auto ↦ move_task task.id Status.downloading none (select_all task.id w)
        ])
    by_mode Mode.select = move_task-IsSettled task.id Status.waiting_selection none w refl
    by_mode Mode.auto =
        move_task-IsSettled task.id Status.downloading none (select_all task.id w) refl

after_poll-IsSettled :
    (task : Task) (w : World) (o : Option World) → IsSettled task.id (after_poll task w o)
unfolding finish_resolve
after_poll-IsSettled task w none =
    move_task-IsSettled task.id Status.failed (some Reason.timeout_no_files) w refl
after_poll-IsSettled task w (some w') = finish_resolve-IsSettled task w'

resolve_magnet-IsSettled :
    (U : Unicode) (new_id : ℕ → Text) (client : Client) (elsewhere : ℕ → World → World) (n : ℕ)
    (task : Task) (w : World)
    → IsSettled task.id (resolve_magnet U new_id client elsewhere n task w)
unfolding resolve_magnet
resolve_magnet-IsSettled U new_id client elsewhere n task w =
    elim (Option-cases (upload_ref client task)) [
      | inl e ↦
          rw (e, resolve_magnet)
            (move_task-IsSettled task.id Status.failed (some Reason.magnet_upload_failed) w refl)
      | inr (ref, e) ↦
          rw (e, resolve_magnet)
            (after_poll-IsSettled task (wait_out elsewhere 0 n (start ref))
              (poll U new_id client elsewhere task.id (some ref) 0 n (start ref)))
    ]
  where
    start : Text → World
    start ref = move_task task.id Status.resolving none (store_ref task ref w)

resolve_link-IsSettled :
    (U : Unicode) (new_id : ℕ → Text) (client : Client) (task : Task) (w : World)
    → IsSettled task.id (resolve_link U new_id client task w)
unfolding resolve_link
resolve_link-IsSettled U new_id client task w = by_info (client.get_link_info task.source)
  where
    w1 : World
    w1 = move_task task.id Status.resolving none w

    by_info :
        (o : Option FileInfo)
        → IsSettled task.id (elim o [
          | none ↦ move_task task.id Status.failed (some Reason.link_info_failed) w1
          | some info ↦ finish_resolve task (
              set_provider_ref task.id task.source (
                list_link
                  (new_id 0)
                  task.id
                  (link_name U task.id info.name)
                  info.size
                  (files_of task.id w1.db)
                  w1))
        ])
    by_info none = move_task-IsSettled task.id Status.failed (some Reason.link_info_failed) w1 refl
    by_info (some info) = finish_resolve-IsSettled task (
        set_provider_ref task.id task.source (
          list_link (new_id 0) task.id (link_name U task.id info.name) info.size
            (files_of task.id w1.db) w1))

-- Whatever the provider answers and whatever other processes commit meanwhile, a task that
-- `resolve_task` has run on and that still exists is FAILED, WAITING_SELECTION or DOWNLOADING: it does
-- not stay QUEUED or RESOLVING, and a cancellation that came during the polling is overwritten.
pub resolve_task-IsSettled :
    (U : Unicode) (new_id : ℕ → Text) (client : Client) (elsewhere : ℕ → World → World)
    (task : Task) (w : World)
    → IsSettled task.id (resolve_task U new_id client elsewhere task w)
unfolding resolve_task
resolve_task-IsSettled U new_id client elsewhere task w = by_type task.source_type
  where
    by_type :
        (s : SourceType)
        → IsSettled task.id (elim s [
          | SourceType.magnet ↦ resolve_magnet U new_id client elsewhere max_resolve_attempts task w
          | SourceType.link ↦ resolve_link U new_id client task w
          | SourceType.upload ↦ move_task task.id Status.failed (some Reason.unknown_source_type) w
        ])
    by_type SourceType.magnet =
        resolve_magnet-IsSettled U new_id client elsewhere max_resolve_attempts task w
    by_type SourceType.link = resolve_link-IsSettled U new_id client task w
    by_type SourceType.upload =
        move_task-IsSettled task.id Status.failed (some Reason.unknown_source_type) w refl

module _ (U : Unicode) (new_id : ℕ → Text) (client : Client) (elsewhere : ℕ → World → World)
    (id : Text) (ref : Option Text) where
  -- The answer of a round holds no files.
  abbrev pub is_empty_round : ℕ → Bool
  is_empty_round i = no_files (polled (client.get_magnet_status i ref))

  -- The first round whose answer holds files ends the polling, and its files are listed; what others
  -- committed during the earlier rounds is kept.
  poll_first :
      (k round left : ℕ) (w : World)
      → k < left
      → ((j : ℕ) → j < k → is_empty_round (round + j) ≡ true)
      → is_empty_round (round + k) ≡ false
      → poll U new_id client elsewhere id ref round left w
        ≡ some (
            list_found U new_id id
              (polled (client.get_magnet_status (round + k) ref))
              (wait_out elsewhere round k w))
  unfolding poll wait_out
  poll_first zero round (suc left) w lt before here =
      let e : round + 0 ≡ round = omega arith in rw (ap is_empty_round (sym e) ∙ here, e) refl
  poll_first (suc k) round (suc left) w lt before here =
      let e : round + 0 ≡ round = omega arith in
      let f : round + suc k ≡ round + 1 + k = omega arith in
      rw (ap is_empty_round (sym e) ∙ before 0 (omega arith), f)
        (poll_first k (round + 1) left (elsewhere round w) (omega arith)
          (λ j lt.
            let g : round + 1 + j ≡ round + suc j = omega arith in
            ap is_empty_round g ∙ before (suc j) (omega arith))
          (ap is_empty_round (sym f) ∙ here))
  poll_first k round zero w lt before here = elim lt [ ]

  -- If no round holds files, the polling ends without a result.
  poll-none :
      (left round : ℕ) (w : World)
      → ((j : ℕ) → j < left → is_empty_round (round + j) ≡ true)
      → poll U new_id client elsewhere id ref round left w ≡ none
  unfolding poll
  poll-none zero round w h = refl
  poll-none (suc left) round w h =
      let e : round + 0 ≡ round = omega arith in
      rw (ap is_empty_round (sym e) ∙ h 0 (omega arith)) (
        poll-none left (round + 1) (elsewhere round w) λ j lt.
          let g : round + 1 + j ≡ round + suc j = omega arith in
          ap is_empty_round g ∙ h (suc j) (omega arith))

abbrev pub HasValidName : Unicode → TaskFile → Type 0
HasValidName U f = validate_file_name U f.name ≡ ok f.name

list_file-HasValidName :
    (U : Unicode) (id task_id : Text) (i : ℕ) (name : Text) (size : ℕ) (o : Option TaskFile)
    (l : Listing)
    → validate_file_name U name ≡ ok name
    → All (HasValidName U) l.db.files
    → All (HasValidName U) (list_file id task_id i name size o l).db.files
list_file-HasValidName U id task_id i name size (some tf) l v h = h
list_file-HasValidName U id task_id i name size none l v h =
    All-append (HasValidName U) l.db.files (new_file id task_id i name size ∷ []) h (v, tt)

list_files-HasValidName :
    (U : Unicode) (new_id : ℕ → Text) (task_id : Text) (existing : List TaskFile) (i : ℕ)
    (fis : List FileInfo) (l : Listing)
    → All (HasValidName U) l.db.files
    → All (HasValidName U) (list_files U new_id task_id existing i fis l).db.files
unfolding list_files
list_files-HasValidName U new_id task_id existing i [] l h = h
list_files-HasValidName U new_id task_id existing i (fi ∷ fis) l h =
    list_files-HasValidName U new_id task_id existing (i + 1) fis _
      (entry (validate_file_name U name) refl)
  where
    name : Text
    name = name_or_default i fi.name

    entry :
        (v : Validated Text)
        → validate_file_name U name ≡ v
        → All (HasValidName U) (
            let l' : Listing = elim v [
              | err e ↦ l
              | ok n ↦ list_file (new_id i) task_id i name fi.size (find (has_index i) existing) l
            ] in
            l'.db.files)
    entry (err e) p = h
    entry (ok n) p =
        let (same, _) = validate_file_name-eq-ok U name n p in
        list_file-HasValidName U (new_id i) task_id i name fi.size (find (has_index i) existing) l
          (p ∙ ap ok same) h

-- If all rows of the database have names that the validator accepts, they still do after the files of
-- a task have been listed, whatever names the provider sends.
pub list_found-HasValidName :
    (U : Unicode) (new_id : ℕ → Text) (task_id : Text) (files : List FileInfo) (w : World)
    → All (HasValidName U) w.db.files
    → All (HasValidName U) (list_found U new_id task_id files w).db.files
unfolding list_found
list_found-HasValidName U new_id task_id files w h =
    list_files-HasValidName U new_id task_id (files_of task_id w.db) 0 files
      (record { db = w.db; listed = [] }) h
