-- ===== src/Api/Tasks/Kept.antt =====
-- What a request for a new task in app/api.py leaves for later requests to find.
use all_debrid_proxy.Base.{
  ℕ, ◌≡◌, ◌≢◌, refl, sym, ap, ◌∙◌, Bool, true, false, Option, none, some, List, [], ◌∷◌, ◌++◌,
  arith, if◌then◌else◌, Bool-cases, inl, inr, Text,
}
use all_debrid_proxy.Constants.{SourceType}
use all_debrid_proxy.Models.{Task}
use all_debrid_proxy.World.{World}
use all_debrid_proxy.Api.Tasks.{
  Library, CreateTaskRequest, Checked, matches_source, newer, newest, new_task, insert_task,
  reuse_or_create,
}
use all_debrid_proxy.Api.Tasks.Create.{matched_source, new_task-matches}

-- A new row that a test does not find leaves what it finds.
newest-skip :
    (p : Task → Bool) (ts : List Task) (t : Task)
    → p t ≡ false
    → newest p (ts ++ (t ∷ [])) ≡ newest p ts
unfolding newest
newest-skip p [] t h = rw h refl
newest-skip p (x ∷ ts) t h =
    ap (λ later. if p x then newer x later else later) (newest-skip p ts t h)

newer-some : (t : Task) (o : Option Task) → newer t o ≢ none
newer-some t none = λ e. cc
newer-some t (some u) = ground arith

-- Where a test finds nothing, a new row that it matches is what it finds.
newest-only :
    (p : Task → Bool) (ts : List Task) (t : Task)
    → newest p ts ≡ none
    → p t ≡ true
    → newest p (ts ++ (t ∷ [])) ≡ some t
unfolding newest
newest-only p [] t h m = rw m refl
newest-only p (x ∷ ts) t h m = elim (Bool-cases (p x)) [
  | inl e ↦ absurd (newer-some x (newest p ts) (rw e at h))
  | inr e ↦ rw e (newest-only p ts t (rw e at h) m)
]

module _ (lib : Library) (req : CreateTaskRequest) (c : Checked) (id : Text) (now : ℕ) where
  abbrev mine : Task → Bool
  mine = matches_source c.identifier c.source_type

  -- After the request, what was found for any source is still found.
  pub reuse_or_create-keeps :
      (i : Text) (s : SourceType) (w : World) (u : Task)
      → newest (matches_source i s) w.db.tasks ≡ some u
      → newest
          (matches_source i s)
          (reuse_or_create (new_task lib req c id now) (newest mine w.db.tasks) w).1.db.tasks
        ≡ some u
  unfolding insert_task
  reuse_or_create-keeps i s w u found = by_mine (newest mine w.db.tasks) refl
    where
      none_some : {a : Task} → none ≡ some a → ⊥
      none_some h = cc

      by_mine :
          (o : Option Task)
          → newest mine w.db.tasks ≡ o
          → newest (matches_source i s) (reuse_or_create (new_task lib req c id now) o w).1.db.tasks
            ≡ some u
      by_mine (some e) h = found
      by_mine none h = elim (Bool-cases (matches_source i s (new_task lib req c id now))) [
        | inr n ↦ newest-skip (matches_source i s) w.db.tasks (new_task lib req c id now) n ∙ found
        | inl y ↦
            let (p, q) = matched_source lib req c id now i s y in
            let same : newest (matches_source i s) w.db.tasks ≡ newest mine w.db.tasks =
              ap (λ j. newest (matches_source j s) w.db.tasks) p
              ∙ ap (λ r. newest (matches_source c.identifier r) w.db.tasks) q in
            absurd (none_some (sym h ∙ sym same ∙ found))
      ]

  -- The task that the answer names is the one that is found for its source afterwards.
  pub reuse_or_create-offers :
      (w : World)
      → let r = reuse_or_create (new_task lib req c id now) (newest mine w.db.tasks) w in
        (u : Task) × (newest mine r.1.db.tasks ≡ some u) × (r.0.task_id ≡ u.id)
  unfolding insert_task
  reuse_or_create-offers w = by_mine (newest mine w.db.tasks) refl
    where
      by_mine :
          (o : Option Task)
          → newest mine w.db.tasks ≡ o
          → let r = reuse_or_create (new_task lib req c id now) o w in
            (u : Task) × (newest mine r.1.db.tasks ≡ some u) × (r.0.task_id ≡ u.id)
      by_mine (some e) h = (e, h, refl)
      by_mine none h = (
        new_task lib req c id now,
        newest-only mine w.db.tasks (new_task lib req c id now) h
            (new_task-matches lib req c id now),
        refl,
      )
