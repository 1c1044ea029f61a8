-- ===== src/Api/Tasks/Create.antt =====
-- `create_task` of app/api.py and tasks for one source.
use all_debrid_proxy.Base.{
  ℕ, ◌+◌, ◌≤◌, ◌≡◌, ◌≢◌, refl, sym, ap, ◌∙◌, Bool, true, ◌&&◌, Option, none, some, List, [], ◌∷◌,
  ◌++◌, arith, ltb, Bool-cases, inl, inr, Text, text_eq, text_eq→eq, text_eq_refl, count_if,
  count_if-append, ok, err, &&_true,
}
use all_debrid_proxy.Constants.{SourceType, source_type_eq}
use all_debrid_proxy.Models.{Task}
use all_debrid_proxy.World.{World}
use all_debrid_proxy.Api.Errors.{HttpError, Response}
use all_debrid_proxy.Api.Tasks.{
  Library, CreateTaskRequest, Checked, check_request, matches_source, newer, newest, new_task,
  Created, insert_task, reuse_or_create, create_task,
}

source_type_eq_refl : (t : SourceType) → source_type_eq t t ≡ true
source_type_eq_refl SourceType.magnet = refl
source_type_eq_refl SourceType.link = refl
source_type_eq_refl SourceType.upload = refl

newest-append :
    (p : Task → Bool) (ts : List Task) (t : Task)
    → p t ≡ true
    → (u : Task) × (newest p (ts ++ (t ∷ [])) ≡ some u)
unfolding newest
newest-append p [] t h = (t, rw h refl)
newest-append p (x ∷ ts) t h =
    let (u, e) = newest-append p ts t h in
    elim (Bool-cases (p x)) [
      | inl q ↦ elim (Bool-cases (ltb x.created_at u.created_at)) [
        | inl l ↦ (u, rw (q, e, l) refl)
        | inr l ↦ (x, rw (q, e, l) refl)
      ]
      | inr q ↦ (u, rw (q, e) refl)
    ]

newest-none : (p : Task → Bool) (ts : List Task) → newest p ts ≡ none → count_if p ts ≡ 0
unfolding newest
newest-none p [] h = refl
newest-none p (x ∷ ts) h = elim (Bool-cases (p x)) [
  | inr q ↦ rw q (omega (arith, newest-none p ts (rw q at h)))
  | inl q ↦ absurd (newer_some x (newest p ts) (rw q at h))
]
  where
    newer_some : (t : Task) (o : Option Task) → newer t o ≢ none
    newer_some t none = λ e. cc
    newer_some t (some u) = ground arith

pub new_task-matches :
    (lib : Library) (req : CreateTaskRequest) (c : Checked) (id : Text) (now : ℕ)
    → matches_source c.identifier c.source_type (new_task lib req c id now) ≡ true
new_task-matches lib req c id now =
    rw (text_eq_refl c.identifier, source_type_eq_refl c.source_type) refl

pub create_task-eq :
    (lib : Library) (id : Text) (now : ℕ) (req : CreateTaskRequest) (w : World) (c : Checked)
    → check_request lib req ≡ ok c
    → create_task lib id now req w
      ≡ ok (
          reuse_or_create
            (new_task lib req c id now)
            (newest (matches_source c.identifier c.source_type) w.db.tasks)
            w)
unfolding create_task
create_task-eq lib id now req w c e = rw e refl

pub create_task-rejected :
    (lib : Library) (id : Text) (now : ℕ) (req : CreateTaskRequest) (w : World) (x : HttpError)
    → check_request lib req ≡ err x
    → create_task lib id now req w ≡ err x
unfolding create_task
create_task-rejected lib id now req w x e = rw e refl

ok_inj : (a b : Created × World) → ◌≡◌ {A = Response (Created × World)} (ok a) (ok b) → a ≡ b
ok_inj a b h = cc

-- What a world offers to a second request.
offered :
    (t : Task) (p : Task → Bool) (o : Option Task) (w w' : World) (d : Created)
    → newest p w.db.tasks ≡ o
    → p t ≡ true
    → reuse_or_create t o w ≡ (d, w')
    → (u : Task) × (newest p w'.db.tasks ≡ some u)
unfolding insert_task
offered t p (some u) w w' d e h same = (u, rw (← ap (λ (x : Created × World). x.1) same) e)
offered t p none w w' d e h same =
    rw (← ap (λ (x : Created × World). x.1) same) (newest-append p w.db.tasks t h)

-- After a request for a source was served, every further valid request for the same identifier and
-- type, right after it, reuses a task and changes nothing.
pub create_task-again :
    (lib : Library) (id id' : Text) (now now' : ℕ) (req req' : CreateTaskRequest) (w w' : World)
    (d : Created) (c c' : Checked)
    → check_request lib req ≡ ok c
    → check_request lib req' ≡ ok c'
    → c.identifier ≡ c'.identifier
    → c.source_type ≡ c'.source_type
    → create_task lib id now req w ≡ ok (d, w')
    → (d' : Created) × (create_task lib id' now' req' w' ≡ ok (d', w')) × (d'.reused ≡ true)
unfolding insert_task
create_task-again lib id id' now now' req req' w w' d c c' e e' same_id same_type h =
    let p = matches_source c.identifier c.source_type in
    let t = new_task lib req c id now in
    let served : reuse_or_create t (newest p w.db.tasks) w ≡ (d, w') =
      ok_inj _ _ (sym (create_task-eq lib id now req w c e) ∙ h) in
    let (u, found) =
      offered t p (newest p w.db.tasks) w w' d refl (new_task-matches lib req c id now) served in
    let there : newest (matches_source c'.identifier c'.source_type) w'.db.tasks ≡ some u =
      rw (← same_id, ← same_type) found in
    (
      record { task_id = u.id; status = u.status; reused = true },
      create_task-eq lib id' now' req' w' c' e'
          ∙ ap (λ o. ok (reuse_or_create (new_task lib req' c' id' now') o w')) there,
      refl,
    )

-- No two tasks that could be reused are about one source.
pub record IsDeduplicated (w : World) : Type 0 where
  pub single :
      (identifier : Text) (t : SourceType) → count_if (matches_source identifier t) w.db.tasks ≤ 1

source_type_eq→eq : (s t : SourceType) → source_type_eq s t ≡ true → s ≡ t
source_type_eq→eq s t h = ground arith

pub matched_source :
    (lib : Library) (req : CreateTaskRequest) (c : Checked) (id : Text) (now : ℕ) (i : Text)
    (t : SourceType)
    → matches_source i t (new_task lib req c id now) ≡ true
    → (i ≡ c.identifier) × (t ≡ c.source_type)
matched_source lib req c id now i t h =
    let (both, _) = &&_true (text_eq c.identifier i && source_type_eq c.source_type t) true h in
    let (a, b') = &&_true (text_eq c.identifier i) (source_type_eq c.source_type t) both in
    (sym (text_eq→eq c.identifier i a), sym (source_type_eq→eq c.source_type t b'))

reuse_or_create-IsDeduplicated :
    (lib : Library) (req : CreateTaskRequest) (c : Checked) (id : Text) (now : ℕ) (w : World)
    (o : Option Task)
    → newest (matches_source c.identifier c.source_type) w.db.tasks ≡ o
    → IsDeduplicated w
    → IsDeduplicated (reuse_or_create (new_task lib req c id now) o w).1
unfolding insert_task
reuse_or_create-IsDeduplicated lib req c id now w (some u) e h = h
reuse_or_create-IsDeduplicated lib req c id now w none e h = record {
  single = λ i t. rw (count_if-append (matches_source i t) w.db.tasks (new ∷ [])) (one i t);
}
  where
    new : Task
    new = new_task lib req c id now

    one :
        (i : Text) (t : SourceType)
        → count_if (matches_source i t) w.db.tasks + count_if (matches_source i t) (new ∷ []) ≤ 1
    one i t = elim (Bool-cases (matches_source i t new)) [
      | inr n ↦ rw n (omega (arith, h.single i t))
      | inl y ↦
          let (p, q) = matched_source lib req c id now i t y in
          let none_there = newest-none (matches_source c.identifier c.source_type) w.db.tasks e in
          rw y (
            omega (
              arith,
              none_there,
              ap (λ (f : Task → Bool). count_if f w.db.tasks)
                  (ap (λ j. matches_source j t) p ∙ ap (λ s. matches_source c.identifier s) q),
            ))
    ]

-- `create_task`, for every request that it accepts, keeps the database free of two reusable tasks for
-- one source.
pub create_task-IsDeduplicated :
    (lib : Library) (id : Text) (now : ℕ) (req : CreateTaskRequest) (w w' : World) (d : Created)
    → IsDeduplicated w
    → create_task lib id now req w ≡ ok (d, w')
    → IsDeduplicated w'
create_task-IsDeduplicated lib id now req w w' d dedup h = checked (check_request lib req) refl
  where
    checked : (r : Response Checked) → check_request lib req ≡ r → IsDeduplicated w'
    checked (err x) e = cc (create_task-rejected lib id now req w x e, h)
    checked (ok c) e =
        let served : reuse_or_create (new_task lib req c id now)
              (newest (matches_source c.identifier c.source_type) w.db.tasks) w
            ≡ (d, w') =
          ok_inj _ _ (sym (create_task-eq lib id now req w c e) ∙ h) in
        rw (← ap (λ (x : Created × World). x.1) served)
          (reuse_or_create-IsDeduplicated lib req c id now w _ refl dedup)
