-- ===== src/Worker/Cleanup/Laws.antt =====
-- What a cleanup cycle removes, and what it keeps.
use all_debrid_proxy.Base.{
  ℕ, ◌+◌, ◌≤◌, ◌≡◌, refl, ap, ◌∙◌, Bool, true, false, not, List, [], ◌∷◌, arith, Bool-cases, inl,
  inr, Text, filter, some, find,
}
use all_debrid_proxy.Constants.{Status}
use all_debrid_proxy.Models.{Task, get_task, has_task_id}
use all_debrid_proxy.World.{World}
use all_debrid_proxy.Worker.Cleanup.{is_purgeable, is_expired, cleanup_cycle}

-- A status of a task that is still worked on.
abbrev pub is_live : Status → Bool
is_live Status.queued = true
is_live Status.resolving = true
is_live Status.waiting_selection = true
is_live Status.downloading = true
is_live _ = false

live-not_purgeable : (s : Status) → is_live s ≡ true → is_purgeable s ≡ false
live-not_purgeable Status.queued h = refl
live-not_purgeable Status.resolving h = refl
live-not_purgeable Status.waiting_selection h = refl
live-not_purgeable Status.downloading h = refl
live-not_purgeable Status.ready h = cc
live-not_purgeable Status.done h = cc
live-not_purgeable Status.completed h = cc
live-not_purgeable Status.failed h = cc
live-not_purgeable Status.canceled h = cc

find-filter_kept :
    (p q : Task → Bool) (ts : List Task) (t : Task)
    → find p ts ≡ some t
    → q t ≡ true
    → find p (filter q ts) ≡ some t
find-filter_kept p q [] t found keep = cc
find-filter_kept p q (x ∷ ts) t found keep = elim (Bool-cases (p x)) [
  | inl e ↦ let same : x ≡ t = some_inj (rw e at found) in rw (ap q same ∙ keep, e) (ap some same)
  | inr e ↦ elim (Bool-cases (q x)) [
    | inl k ↦ rw (k, e) (find-filter_kept p q ts t (rw e at found) keep)
    | inr k ↦ rw k (find-filter_kept p q ts t (rw e at found) keep)
  ]
]
  where
    some_inj : {a b : Task} → some a ≡ some b → a ≡ b
    some_inj h = cc

expired_of_live :
    (retention now : ℕ) (t : Task)
    → is_purgeable t.status ≡ false
    → not (is_expired retention now t) ≡ true
expired_of_live retention now t h = rw h refl

expired_of_young :
    (retention now : ℕ) (t : Task)
    → now ≤ t.updated_at + retention
    → not (is_expired retention now t) ≡ true
expired_of_young retention now t h = ground arith

kept :
    (retention now : ℕ) (commits : Bool) (id : Text) (t : Task) (w : World)
    → get_task id w.db ≡ some t
    → not (is_expired retention now t) ≡ true
    → get_task id (cleanup_cycle retention now commits w).db ≡ some t
unfolding get_task cleanup_cycle
kept retention now false id t w found keep = found
kept retention now true id t w found keep =
    find-filter_kept (has_task_id id) (λ t. not (is_expired retention now t)) w.db.tasks t found
      keep

-- A cleanup cycle keeps every task that is queued, resolving, waiting for its selection or downloading,
-- however old it is.
pub cleanup_cycle-keeps_live :
    (retention now : ℕ) (commits : Bool) (id : Text) (t : Task) (w : World)
    → get_task id w.db ≡ some t
    → is_live t.status ≡ true
    → get_task id (cleanup_cycle retention now commits w).db ≡ some t
cleanup_cycle-keeps_live retention now commits id t w found live =
    kept retention now commits id t w found
      (expired_of_live retention now t (live-not_purgeable t.status live))
