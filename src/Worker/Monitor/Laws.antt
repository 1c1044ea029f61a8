-- ===== src/Worker/Monitor/Laws.antt =====
-- What one round of the progress monitor does to the file, to other files, and to the statistics.
use all_debrid_proxy.Base.{
  ℕ, zero, suc, ◌==◌, ◌↔◌, ◌≤◌, ◌≡◌, refl, sym, ap, ◌∙◌, Bool, true, false, ◌&&◌, Option, none,
  some, List, [], ◌∷◌, arith, ltb, if◌then◌else◌, Bool-cases, Option-cases, inl, inr, ◌⊎◌, Text,
  text_eq, text_eq→eq, text_eq_refl,
}
use all_debrid_proxy.Base.Unicode.{Unicode}
use all_debrid_proxy.Constants.{FileState, file_state_eq}
use all_debrid_proxy.Models.{Db, TaskFile, or_zero, get_file, get_task, has_file_id, update_file}
use all_debrid_proxy.Models.Rows.{find-update_first_self}
use all_debrid_proxy.World.{World, Event, change_file}
use all_debrid_proxy.Worker.Frame.{SameBut, change_file-SameBut, NotKey}
use all_debrid_proxy.Worker.Monitor.{
  Floats, Metrics, Seen, Update, current_bytes, progress, update_from_aria2, update_from_disk,
  update_row, is_complete, finish_row, total_bytes, monitor_row, monitor_file, name_is_valid, tell,
  count_download, owner,
}

row_id :
    (fl : Floats) (seen : Seen) (m : Option Metrics) (f : TaskFile)
    → (update_row fl seen m f).row.id ≡ f.id
unfolding update_from_aria2 update_from_disk
row_id fl seen (some m) f = ground arith
row_id fl seen none f = ground arith

found_id :
    (id : Text) (fs : List TaskFile) (f : TaskFile)
    → get_file id fs ≡ some f
    → text_eq f.id id ≡ true
unfolding get_file
found_id id [] f h = cc
found_id id (g ∷ gs) f h = elim (Bool-cases (text_eq g.id id)) [
  | inl e ↦ let same : g ≡ f = some_inj (rw e at h) in rw (← same) e
  | inr e ↦ found_id id gs f (rw e at h)
]
  where
    some_inj : {a b : TaskFile} → some a ≡ some b → a ≡ b
    some_inj h = cc

tell-SameBut :
    (k : Text) (b : Bool) (id : Text) (e : Event) (u w : World)
    → SameBut k u w
    → SameBut k u (tell b id e w)
tell-SameBut k true id e u w h = record { row = h.row; ids = h.ids; tasks = h.tasks }
tell-SameBut k false id e u w h = h

monitor_row-SameBut :
    (k : Text) (fl : Floats) (seen : Seen) (f : TaskFile) (w : World)
    → NotKey k f
    → SameBut k w (monitor_row fl seen f w)
unfolding monitor_row finish_row
monitor_row-SameBut k fl seen f w apart = elim (Bool-cases (is_complete seen f)) [
  | inr e ↦ rw e first
  | inl e ↦ rw e (record {
    row = last.row ∙ first.row;
    ids = last.ids ∙ first.ids;
    tasks = last.tasks ∙ first.tasks;
  })
]
  where
    u : Update
    u = update_row fl seen seen.aria2 f

    kept : (x : TaskFile) → x.id ≡ f.id → u.row.id ≡ f.id
    kept x e = row_id fl seen seen.aria2 f

    w1 : World
    w1 =
        tell u.told f.task_id (Event.file_progress f.id u.row.bytes_downloaded u.row.progress_pct)
          (change_file f.id (λ _. u.row) w)

    first : SameBut k w w1
    first =
        tell-SameBut k u.told f.task_id _ w _ (change_file-SameBut k f.id (λ _. u.row) w kept apart)

    w2 : World
    w2 = record w1 {
      db = record w1.db {
        stats = count_download (owner (get_task f.task_id w.db)) u.row.bytes_downloaded w1.db.stats;
      };
    }

    last :
        SameBut k w1 (change_file f.id (λ _. finish_row seen (total_bytes f seen.aria2) u.row) w2)
    last =
        let c =
          change_file-SameBut k f.id (λ _. finish_row seen (total_bytes f seen.aria2) u.row) w2 kept
            apart in
        record { row = c.row; ids = c.ids; tasks = c.tasks }

SameBut-refl : (k : Text) (w : World) → SameBut k w w
SameBut-refl k w = record { row = refl; ids = refl; tasks = refl }

-- A round of the monitor, for whichever file, does not touch a row that is not downloading.
pub monitor_file-SameBut :
    (U : Unicode) (fl : Floats) (seen : Seen) (i k : Text) (w : World) (row : TaskFile)
    → get_file k w.db.files ≡ some row
    → file_state_eq row.state FileState.downloading ≡ false
    → SameBut k w (monitor_file U fl seen i w)
unfolding monitor_file
monitor_file-SameBut U fl seen i k w row found idle = elim (Option-cases (get_file i w.db.files)) [
  | inl e ↦ rw (e, monitor_file) (SameBut-refl k w)
  | inr (f, e) ↦
      rw (e, monitor_file)
        (elim (Bool-cases (file_state_eq f.state FileState.downloading && name_is_valid U f)) [
          | inr t ↦ rw t (SameBut-refl k w)
          | inl t ↦ rw t (monitor_row-SameBut k fl seen f w (apart f e (ground arith)))
        ])
]
  where
    some_inj : {a b : TaskFile} → some a ≡ some b → a ≡ b
    some_inj h = cc

    apart :
        (f : TaskFile)
        → get_file i w.db.files ≡ some f
        → file_state_eq f.state FileState.downloading ≡ true
        → NotKey k f
    apart f e t = elim (Bool-cases (text_eq f.id k)) [
      | inr n ↦ n
      | inl y ↦
          let p = text_eq→eq f.id i (found_id i w.db.files f e) in
          let q = text_eq→eq f.id k y in
          let same : some f ≡ some row =
            sym e ∙ ap (λ j. get_file j w.db.files) (sym p ∙ q) ∙ found in
          cc (
            t,
            idle,
            ap (λ (r : TaskFile). file_state_eq r.state FileState.downloading) (some_inj same),
          )
    ]

-- The percentage that a round stores never passes 100.
progress-le : (fl : Floats) (cur total : ℕ) → progress fl cur total ≤ 100
unfolding progress
progress-le fl cur total = ground arith

update_row-progress :
    (fl : Floats) (seen : Seen) (m : Option Metrics) (f : TaskFile)
    → f.progress_pct ≤ 100
    → (update_row fl seen m f).row.progress_pct ≤ 100
unfolding update_from_aria2 update_from_disk
update_row-progress fl seen (some m) f h =
    ground (arith, progress-le fl m.completed (total_bytes f (some m)))
update_row-progress fl seen none f h =
    ground (arith, progress-le fl (current_bytes seen none) (or_zero f.size_bytes))

-- The size of the file as far as it is known: what aria2 tells, else what the row says.
abbrev pub known_size : Seen → TaskFile → ℕ
known_size seen f = elim seen.aria2 [
  | none ↦ or_zero f.size_bytes
  | some m ↦ elim m.total [ zero ↦ or_zero f.size_bytes | suc n ↦ suc n ]
]

-- The final file is there, the control file is not, and the bytes seen reach the size, if one is known.
abbrev pub IsComplete : Seen → TaskFile → Type 0
IsComplete seen f =
    (seen.out_exists ≡ true)
    × (seen.tmp_exists ≡ false)
    × ((known_size seen f ≡ 0) ⊎ (known_size seen f ≤ current_bytes seen seen.aria2))

-- A row that was finished in a round of the monitor.
abbrev pub IsFinished : Seen → TaskFile → TaskFile → Type 0
IsFinished seen f g =
    (g.state ≡ FileState.done)
    × (g.local_path ≡ some seen.out_path)
    × (g.speed_bps ≡ 0)
    × (g.eta_seconds ≡ some 0)
    × ((known_size seen f ≡ 0) ⊎ (g.progress_pct ≡ 100))

total_bytes-known_size : (seen : Seen) (f : TaskFile) → total_bytes f seen.aria2 ≡ known_size seen f
total_bytes-known_size seen f = by_metrics seen.aria2
  where
    by_total :
        (n : ℕ)
        → (if n == 0 then or_zero f.size_bytes else n)
          ≡ elim n [ zero ↦ or_zero f.size_bytes | suc k ↦ suc k ]
    by_total zero = refl
    by_total (suc n) = ground arith

    by_metrics :
        (m : Option Metrics)
        → total_bytes f m ≡ elim m [
          | none ↦ or_zero f.size_bytes
          | some m ↦ elim m.total [ zero ↦ or_zero f.size_bytes | suc n ↦ suc n ]
        ]
    by_metrics none = refl
    by_metrics (some m) = by_total m.total

is_complete_lem : (seen : Seen) (f : TaskFile) → (is_complete seen f ≡ true) ↔ IsComplete seen f
unfolding is_complete
is_complete_lem seen f = (there, back)
  where
    same : total_bytes f seen.aria2 ≡ known_size seen f
    same = total_bytes-known_size seen f

    there : is_complete seen f ≡ true → IsComplete seen f
    there h = rw (← same) (ground arith)

    back : IsComplete seen f → is_complete seen f ≡ true
    back (out, tmp, inl e) = let k = same ∙ e in ground arith
    back (out, tmp, inr e) = let k = rw (← same) at e in ground arith

-- The row after a round.
abbrev after_round : Floats → Seen → TaskFile → TaskFile
after_round fl seen f =
    let u = (update_row fl seen seen.aria2 f).row in
    if is_complete seen f then finish_row seen (total_bytes f seen.aria2) u else u

state-update_row :
    (fl : Floats) (seen : Seen) (m : Option Metrics) (f : TaskFile)
    → (update_row fl seen m f).row.state ≡ f.state
unfolding update_from_aria2 update_from_disk
state-update_row fl seen (some m) f = ground arith
state-update_row fl seen none f = ground arith

after_round_lem :
    (fl : Floats) (seen : Seen) (f : TaskFile)
    → f.state ≡ FileState.downloading
    → f.progress_pct ≤ 100
    → let g = after_round fl seen f in
      (g.progress_pct ≤ 100)
      × ((IsComplete seen f × IsFinished seen f g)
          ⊎ ((¬ IsComplete seen f) × (g.state ≡ FileState.downloading)))
unfolding finish_row
after_round_lem fl seen f st pct = elim (Bool-cases (is_complete seen f)) [
  | inl e ↦ (rw e finished_pct, inl ((is_complete_lem seen f).0 e, rw e finished))
  | inr e ↦ (
    rw e (update_row-progress fl seen seen.aria2 f pct),
    inr (
      λ complete. true_false (sym ((is_complete_lem seen f).1 complete) ∙ e),
      rw e (state-update_row fl seen seen.aria2 f ∙ st),
    ),
  )
]
  where
    true_false : true ≡ false → ⊥
    true_false h = cc

    u : TaskFile
    u = (update_row fl seen seen.aria2 f).row

    finished_pct : (finish_row seen (total_bytes f seen.aria2) u).progress_pct ≤ 100
    finished_pct = ground (arith, update_row-progress fl seen seen.aria2 f)

    size_or_100 : (total n : ℕ) → (total ≡ 0) ⊎ ((if ltb 0 total then 100 else n) ≡ 100)
    size_or_100 zero n = inl refl
    size_or_100 (suc total) n = inr (ground arith)

    finished : IsFinished seen f (finish_row seen (total_bytes f seen.aria2) u)
    finished =
        let sized : (total_bytes f seen.aria2 ≡ 0)
            ⊎ ((if ltb 0 (total_bytes f seen.aria2) then 100 else u.progress_pct) ≡ 100) =
          size_or_100 (total_bytes f seen.aria2) u.progress_pct in
        (
          refl,
          refl,
          refl,
          refl,
          elim sized [ inl e ↦ inl (sym (total_bytes-known_size seen f) ∙ e) | inr e ↦ inr e ],
        )

get_file-change_file :
    (i : Text) (g : TaskFile → TaskFile) (w : World) (f : TaskFile)
    → ((x : TaskFile) → x.id ≡ i → (g x).id ≡ i)
    → get_file i w.db.files ≡ some f
    → get_file i (change_file i g w).db.files ≡ some (g f)
unfolding get_file update_file
get_file-change_file i g w f keep h =
    find-update_first_self (has_file_id i) g w.db.files f
      (λ x e. let p = text_eq→eq x.id i e in rw (keep x p) (text_eq_refl i)) h

files-tell : (b : Bool) (id : Text) (e : Event) (w : World) → (tell b id e w).db ≡ w.db
files-tell true id e w = refl
files-tell false id e w = refl

monitor_row_found :
    (fl : Floats) (seen : Seen) (f : TaskFile) (w : World)
    → get_file f.id w.db.files ≡ some f
    → get_file f.id (monitor_row fl seen f w).db.files ≡ some (after_round fl seen f)
unfolding monitor_row
monitor_row_found fl seen f w h = elim (Bool-cases (is_complete seen f)) [
  | inr e ↦ rw e first
  | inl e ↦ rw e (
      get_file-change_file f.id (λ _. finish_row seen (total_bytes f seen.aria2) u) w2 u finished
        first)
]
  where
    up : Update
    up = update_row fl seen seen.aria2 f

    u : TaskFile
    u = up.row

    w1 : World
    w1 =
        tell up.told f.task_id (Event.file_progress f.id u.bytes_downloaded u.progress_pct)
          (change_file f.id (λ _. u) w)

    w2 : World
    w2 = record w1 {
      db = record w1.db {
        stats = count_download (owner (get_task f.task_id w.db)) u.bytes_downloaded w1.db.stats;
      };
    }

    first : get_file f.id w1.db.files ≡ some u
    first =
        ap (λ (db : Db). get_file f.id db.files) (files-tell up.told f.task_id _ _)
        ∙ get_file-change_file f.id (λ _. u) w f (λ x e. row_id fl seen seen.aria2 f) h

    finished :
        (x : TaskFile) → x.id ≡ f.id → (finish_row seen (total_bytes f seen.aria2) u).id ≡ f.id
    finished x e = unfold finish_row in row_id fl seen seen.aria2 f

-- A file that is downloading under a valid name and stored at no more than 100 percent, after a round of the
-- monitor: it is DONE exactly if the final file is there, the control file is not, and the bytes seen reach the
-- size, if one is known; else it is still DOWNLOADING. A finished row points to its file, has no speed
-- and no time left, and is at 100 percent if its size is known. The round stores no more than 100 percent.
pub monitor_file_lem :
    (U : Unicode) (fl : Floats) (seen : Seen) (id : Text) (f : TaskFile) (w : World)
    → get_file id w.db.files ≡ some f
    → f.state ≡ FileState.downloading
    → f.progress_pct ≤ 100
    → name_is_valid U f ≡ true
    → (g : TaskFile) × (get_file id (monitor_file U fl seen id w).db.files ≡ some g)
      × (g.progress_pct ≤ 100)
      × ((IsComplete seen f × IsFinished seen f g)
          ⊎ ((¬ IsComplete seen f) × (g.state ≡ FileState.downloading)))
unfolding monitor_file
monitor_file_lem U fl seen id f w found st pct valid =
    let p = text_eq→eq f.id id (found_id id w.db.files f found) in
    let (a, b) = after_round_lem fl seen f st pct in
    let there : get_file f.id w.db.files ≡ some f = ap (λ i. get_file i w.db.files) p ∙ found in
    (
      after_round fl seen f,
      rw (found, monitor_file, valid, ap (λ x. file_state_eq x FileState.downloading) st)
          (ap (λ i. get_file i (monitor_row fl seen f w).db.files) (sym p)
            ∙ monitor_row_found fl seen f w there),
      a,
      b,
    )
