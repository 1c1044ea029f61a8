-- ===== src/Worker/Frame.antt =====
-- The rows that the loop of `start_next_files` (worker/worker.py) does not select.
use all_debrid_proxy.Base.{
  ℕ, ◌≡◌, refl, sym, ap, ◌∙◌, Bool, true, false, Option, none, some, List, [], ◌∷◌, map, leb,
  Bool-cases, inl, inr, Text, text_eq, text_eq→eq, filter, All, All-filter,
}
use all_debrid_proxy.Constants.{FileState}
use all_debrid_proxy.Models.{
  Db, Task, TaskFile, files_of, file_of, get_file, has_file_id, update_file,
}
use all_debrid_proxy.Models.Rows.{find-update_first_other, map-update_first, UniqueIds}
use all_debrid_proxy.World.{World, change_file, publish, Event}
use all_debrid_proxy.Worker.Client.{Client}
use all_debrid_proxy.Worker.Start.{
  insert_by_index, order_by_index, candidates, is_selected, unlock, begin_download, Started,
  enqueue, start_unlocked, start_file, start_files,
}
use all_debrid_proxy.Worker.Start.Limits.{start_files_stops, start_files_goes_on}

abbrev pub NotKey : Text → TaskFile → Type 0
NotKey k f = text_eq f.id k ≡ false

All-insert_by_index :
    (P : TaskFile → Type 0) (f : TaskFile) (fs : List TaskFile)
    → P f
    → All P fs
    → All P (insert_by_index f fs)
unfolding insert_by_index
All-insert_by_index P f [] h hs = (h, tt)
All-insert_by_index P f (g ∷ gs) h hs = elim (Bool-cases (leb f.index g.index)) [
  | inl e ↦ rw e (h, hs)
  | inr e ↦ rw e (hs.0, All-insert_by_index P f gs h hs.1)
]

pub All-order_by_index :
    (P : TaskFile → Type 0) (fs : List TaskFile) → All P fs → All P (order_by_index fs)
unfolding order_by_index
All-order_by_index P [] h = tt
All-order_by_index P (f ∷ fs) h =
    All-insert_by_index P f (order_by_index fs) h.0 (All-order_by_index P fs h.1)

-- With unique ids, the selected rows have other ids than a row that is not selected.
others_of_unique :
    (k : Text) (fs : List TaskFile)
    → All (λ j. text_eq j k ≡ false) (map (λ (f : TaskFile). f.id) fs)
    → All (NotKey k) fs
others_of_unique k [] h = tt
others_of_unique k (f ∷ fs) h = (h.0, others_of_unique k fs h.1)

All-filter_cons :
    (P : TaskFile → Type 0) (q : TaskFile → Bool) (f : TaskFile) (fs : List TaskFile)
    → (is_selected f ≡ true → P f)
    → All P (filter is_selected (filter q fs))
    → All P (filter is_selected (filter q (f ∷ fs)))
All-filter_cons P q f fs here later = elim (Bool-cases (q f)) [
  | inr e ↦ rw e later
  | inl e ↦
      rw e (elim (Bool-cases (is_selected f)) [ inl s ↦ rw s (here s, later) | inr s ↦ rw s later ])
]

selected_apart :
    (k : Text) (q : TaskFile → Bool) (fs : List TaskFile) (row : TaskFile)
    → UniqueIds (map (λ (f : TaskFile). f.id) fs)
    → get_file k fs ≡ some row
    → is_selected row ≡ false
    → All (NotKey k) (filter is_selected (filter q fs))
unfolding get_file
selected_apart k q [] row u found out = tt
selected_apart k q (f ∷ fs) row u found out = elim (Bool-cases (text_eq f.id k)) [
  | inl e ↦
      let same : f ≡ row = some_inj (rw e at found) in
      let others = others_of_unique k fs (rw (text_eq→eq f.id k e) at u.0) in
      All-filter_cons (NotKey k) q f fs
        (λ s. absurd (true_ne_false (sym s ∙ ap is_selected same ∙ out)))
        (All-filter (NotKey k) is_selected (filter q fs) (All-filter (NotKey k) q fs others))
  | inr e ↦
      All-filter_cons (NotKey k) q f fs (λ _. e) (selected_apart k q fs row u.1 (rw e at found) out)
]
  where
    some_inj : {a b : TaskFile} → some a ≡ some b → a ≡ b
    some_inj h = cc

    true_ne_false : true ≡ false → ⊥
    true_ne_false h = cc

-- A change of another row leaves the row alone.
get_file-update_file :
    (k i : Text) (g : TaskFile → TaskFile) (db : Db)
    → ((x : TaskFile) → x.id ≡ i → (g x).id ≡ i)
    → text_eq i k ≡ false
    → get_file k (update_file i g db).files ≡ get_file k db.files
unfolding get_file update_file
get_file-update_file k i g db keep apart =
    find-update_first_other (has_file_id i) (has_file_id k) g db.files
      λ x e. let p = text_eq→eq x.id i e in (rw p apart, rw (keep x p) apart)

ids-update_file :
    (i : Text) (g : TaskFile → TaskFile) (db : Db)
    → ((x : TaskFile) → x.id ≡ i → (g x).id ≡ i)
    → map (λ (f : TaskFile). f.id) (update_file i g db).files
      ≡ map (λ (f : TaskFile). f.id) db.files
unfolding update_file
ids-update_file i g db keep =
    map-update_first (λ (f : TaskFile). f.id) (has_file_id i) g db.files
      λ x e. let p = text_eq→eq x.id i e in keep x p ∙ sym p

-- What a step on other rows keeps: the row, the ids and the tasks.
pub record SameBut (k : Text) (w w' : World) : Type 0 where
  pub row : get_file k w'.db.files ≡ get_file k w.db.files
  pub ids : map (λ (f : TaskFile). f.id) w'.db.files ≡ map (λ (f : TaskFile). f.id) w.db.files
  pub tasks : w'.db.tasks ≡ w.db.tasks

SameBut-trans : {k : Text} {u v w : World} → SameBut k u v → SameBut k v w → SameBut k u w
SameBut-trans p q = record { row = q.row ∙ p.row; ids = q.ids ∙ p.ids; tasks = q.tasks ∙ p.tasks }

pub change_file-SameBut :
    (k i : Text) (g : TaskFile → TaskFile) (w : World)
    → ((x : TaskFile) → x.id ≡ i → (g x).id ≡ i)
    → text_eq i k ≡ false
    → SameBut k w (change_file i g w)
change_file-SameBut k i g w keep apart = record {
  row = get_file-update_file k i g w.db keep apart;
  ids = ids-update_file i g w.db keep;
  tasks = unfold update_file in refl;
}

begin_id : (i url : Text) (now : ℕ) (x : TaskFile) → x.id ≡ i → (begin_download url now x).id ≡ i
begin_id i url now x e = e

start_unlocked-SameBut :
    (k : Text) (client : Client) (now : ℕ) (id : Text) (f : TaskFile) (url : Option Text)
    (s : Started)
    → NotKey k f
    → SameBut k s.world (start_unlocked client now id f url s).world
start_unlocked-SameBut k client now id f none s apart = record {
  row = c.row;
  ids = c.ids;
  tasks = c.tasks;
}
  where
    c : SameBut k s.world (change_file f.id (λ f. record f { state = FileState.failed }) s.world)
    c = change_file-SameBut k f.id _ s.world (λ x e. e) apart
start_unlocked-SameBut k client now id f (some url) s apart = enqueued (client.add_uri url f.name)
  where
    w1 : World
    w1 = change_file f.id (begin_download url now) s.world

    c1 : SameBut k s.world w1
    c1 = change_file-SameBut k f.id _ s.world (begin_id f.id url now) apart

    w2 : World
    w2 = publish id (Event.file_state f.id FileState.downloading) w1

    c2 : SameBut k w2 (change_file f.id (λ f. record f { state = FileState.failed }) w2)
    c2 = change_file-SameBut k f.id _ w2 (λ x e. e) apart

    enqueued : (b : Bool) → SameBut k s.world (enqueue b id f s.started w2).world
    enqueued true = record { row = c1.row; ids = c1.ids; tasks = c1.tasks }
    enqueued false = record {
      row = c2.row ∙ c1.row;
      ids = c2.ids ∙ c1.ids;
      tasks = c2.tasks ∙ c1.tasks;
    }

start_files-SameBut :
    (k : Text) (client : Client) (now : ℕ) (task : Task) (n : ℕ) (fs : List TaskFile) (s : Started)
    → All (NotKey k) fs
    → SameBut k s.world (start_files client now task n fs s).world
unfolding start_files start_file
start_files-SameBut k client now task n [] s h = record { row = refl; ids = refl; tasks = refl }
start_files-SameBut k client now task n (f ∷ fs) s h = elim (Bool-cases (leb n s.started)) [
  | inl e ↦
      rw (start_files_stops client now task n f fs s e)
        (record { row = refl; ids = refl; tasks = refl })
  | inr e ↦ rw (start_files_goes_on client now task n f fs s e) (
      SameBut-trans (start_unlocked-SameBut k client now task.id f (unlock client task f) s h.0)
        (start_files-SameBut k client now task n fs (start_file client now task f s) h.1))
]

-- The loop over a task's candidates does not touch a row that is not selected.
pub candidates-SameBut :
    (k : Text) (client : Client) (now : ℕ) (task : Task) (n : ℕ) (w : World) (row : TaskFile)
    → UniqueIds (map (λ (f : TaskFile). f.id) w.db.files)
    → get_file k w.db.files ≡ some row
    → is_selected row ≡ false
    → SameBut k w
        (start_files client now task n
          (candidates task.id w.db)
          (record { world = w; started = 0 })).world
unfolding candidates files_of
candidates-SameBut k client now task n w row u found out =
    start_files-SameBut k client now task n
      (order_by_index (filter is_selected (filter (file_of task.id) w.db.files)))
      (record { world = w; started = 0 })
      (All-order_by_index (NotKey k) _
        (selected_apart k (file_of task.id) w.db.files row u found out))
