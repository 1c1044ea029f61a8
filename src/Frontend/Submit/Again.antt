-- ===== src/Frontend/Submit/Again.antt =====
-- `create_task` of frontend/app.py on top of `create_task` of app/api.py: a form that is submitted again.
use all_debrid_proxy.Base.{
  ℕ, ◌+◌, ◌≡◌, refl, sym, ap, ◌∙◌, true, false, none, some, List, [], ◌∷◌, ◌++◌, if◌then◌else◌, inl,
  inr, ◌⊎◌, pos, Text, codes, text_eq, elem_of, length, map, Result, ok, err,
}
use all_debrid_proxy.Base.Unicode.{Unicode}
use all_debrid_proxy.Constants.{Mode}
use all_debrid_proxy.Models
use all_debrid_proxy.Models.{Task}
use all_debrid_proxy.World.{World}
use all_debrid_proxy.Api.Errors.{HttpError, Response}
use all_debrid_proxy.Api.Tasks
use all_debrid_proxy.Api.Tasks.{
  Library, CreateTaskRequest, Checked, Created, check_request, matches_source, newer, newest,
  new_task, insert_task, reuse_or_create,
}
use all_debrid_proxy.Api.Tasks.Create.{create_task-eq, create_task-rejected}
use all_debrid_proxy.Api.Tasks.Kept.{reuse_or_create-keeps, reuse_or_create-offers}
use all_debrid_proxy.Frontend.Submit.Sources.{Torf}
use all_debrid_proxy.Frontend.Submit.Recorded.{again, record_all, IsAgain, record_all-IsAgain}
use all_debrid_proxy.Frontend.Submit.{
  Form, Payload, Reply, Backend, Progress, Rejected, Redirect, record_reply, post_all, payloads,
  nothing_yet, check_form, post_form, create_task, redirect_for,
}

-- The request that the API reads from the JSON body; the form has checked the mode.
abbrev pub request_of : Payload → CreateTaskRequest
unfolding text_eq
request_of p = record {
  mode = if text_eq p.mode (codes "select") then Mode.select else Mode.auto;
  source = p.source;
  label = p.label;
  user_id = some (pos p.user_id);
}

module _ (lib : Library) (message : HttpError → Text) (new_id : ℕ → Text) (clock : ℕ → ℕ) where
  abbrev pub answered : ℕ → World → Response (Created × World) → Reply × (ℕ × World)
  answered k w (ok (c, w')) = (Reply.accepted c.task_id c.reused, (k + 1, w'))
  answered k w (err e) = (Reply.refused (message e), (k + 1, w))

  -- The API as a backend that is always reached: the state counts the requests, which each have a fresh id and
  -- their time, and holds the world.
  abbrev pub api : Backend (ℕ × World)
  unfolding Tasks.create_task Models.get_task
  api = record {
    post_task =
        λ p s. answered s.0 s.1 (Tasks.create_task lib (new_id s.0) (clock s.0) (request_of p) s.1);
    has_task = λ id s. elim (Models.get_task id s.1.db) [ none ↦ false | some t ↦ true ];
  }

  abbrev post : Payload → ℕ → World → Reply × (ℕ × World)
  unfolding Tasks.create_task
  post p k w = answered k w (Tasks.create_task lib (new_id k) (clock k) (request_of p) w)

  -- What a request for a valid source does.
  post-valid :
      (p : Payload) (k : ℕ) (w : World) (c : Checked)
      → check_request lib (request_of p) ≡ ok c
      → post p k w
        ≡ answered k w (
            ok (
              reuse_or_create
                (new_task lib (request_of p) c (new_id k) (clock k))
                (newest (matches_source c.identifier c.source_type) w.db.tasks)
                w))
  unfolding post
  post-valid p k w c e =
      ap (answered k w) (create_task-eq lib (new_id k) (clock k) (request_of p) w c e)

  post-invalid :
      (p : Payload) (k : ℕ) (w : World) (x : HttpError)
      → check_request lib (request_of p) ≡ err x
      → post p k w ≡ answered k w (err x)
  unfolding post
  post-invalid p k w x e =
      ap (answered k w) (create_task-rejected lib (new_id k) (clock k) (request_of p) w x e)

  -- The API refuses the source for what it is, or has a task that it will reuse for it, and this is the answer.
  abbrev IsSettled : Payload → Reply → World → Type 0
  IsSettled p r w =
      ((x : HttpError) × (check_request lib (request_of p) ≡ err x)
        × (r ≡ Reply.refused (message x)))
      ⊎ ((c : Checked) × (u : Task) × (check_request lib (request_of p) ≡ ok c)
          × (newest (matches_source c.identifier c.source_type) w.db.tasks ≡ some u)
          × (r ≡ Reply.accepted u.id true))

  post-IsSettled :
      (p : Payload) (k : ℕ) (w : World) → IsSettled p (again (post p k w).0) (post p k w).1.1
  post-IsSettled p k w = by_check (check_request lib (request_of p)) refl
    where
      by_check :
          (r : Response Checked)
          → check_request lib (request_of p) ≡ r
          → IsSettled p (again (post p k w).0) (post p k w).1.1
      by_check (err x) e = rw (post-invalid p k w x e) (inl (x, e, refl))
      by_check (ok c) e =
          let (u, found, same) =
            reuse_or_create-offers lib (request_of p) c (new_id k) (clock k) w in
          rw (post-valid p k w c e) (inr (c, u, e, found, ap (λ i. Reply.accepted i true) same))

  post-keeps :
      (q : Payload) (r : Reply) (p : Payload) (k : ℕ) (w : World)
      → IsSettled q r w
      → IsSettled q r (post p k w).1.1
  post-keeps q r p k w (inl h) = inl h
  post-keeps q r p k w (inr (c, u, e, found, same)) =
      by_check (check_request lib (request_of p)) refl
    where
      by_check :
          (v : Response Checked)
          → check_request lib (request_of p) ≡ v
          → IsSettled q r (post p k w).1.1
      by_check (err x) f = rw (post-invalid p k w x f) (inr (c, u, e, found, same))
      by_check (ok d) f =
          let still =
            reuse_or_create-keeps lib (request_of p) d (new_id k) (clock k) c.identifier
              c.source_type w u found in
          rw (post-valid p k w d f) (inr (c, u, e, still, same))

  -- A settled source gets its answer, and the world stays as it is.
  post-settled :
      (p : Payload) (r : Reply) (k : ℕ) (w : World)
      → IsSettled p r w
      → ((post p k w).0 ≡ r) × ((post p k w).1.1 ≡ w)
  unfolding insert_task
  post-settled p r k w (inl (x, e, same)) = rw (post-invalid p k w x e) (sym same, refl)
  post-settled p r k w (inr (c, u, e, found, same)) =
      rw (post-valid p k w c e, found) (sym same, refl)

  -- The answers to the payloads in turn, and the state after them.
  unfoldable replies : List Payload → ℕ × World → List Reply
  unfolding post
  replies [] s = []
  replies (p ∷ ps) s = (post p s.0 s.1).0 ∷ replies ps (post p s.0 s.1).1

  unfoldable after : List Payload → ℕ × World → ℕ × World
  unfolding post
  after [] s = s
  after (p ∷ ps) s = after ps (post p s.0 s.1).1

  abbrev AllSettled : List Payload → List Reply → World → Type 0
  AllSettled [] [] w = Unit
  AllSettled (p ∷ ps) (r ∷ rs) w = IsSettled p r w × AllSettled ps rs w
  AllSettled _ _ w = ⊥

  post_all-eq :
      (ps : List Payload) (i : ℕ) (progress : Progress) (s : ℕ × World)
      → post_all api i ps progress s ≡ (record_all i (replies ps s) progress, after ps s)
  unfolding post_all api post replies after record_all
  post_all-eq [] i progress s = refl
  post_all-eq (p ∷ ps) i progress s =
      post_all-eq ps (i + 1) (record_reply i (post p s.0 s.1).0 progress) (post p s.0 s.1).1

  after-keeps :
      (q : Payload) (r : Reply) (ps : List Payload) (s : ℕ × World)
      → IsSettled q r s.1
      → IsSettled q r (after ps s).1
  unfolding after
  after-keeps q r [] s h = h
  after-keeps q r (p ∷ ps) s h = after-keeps q r ps (post p s.0 s.1).1 (post-keeps q r p s.0 s.1 h)

  -- The first submission settles every source.
  after-AllSettled :
      (ps : List Payload) (s : ℕ × World) → AllSettled ps (map again (replies ps s)) (after ps s).1
  unfolding replies after
  after-AllSettled [] s = tt
  after-AllSettled (p ∷ ps) s =
      let r = again (post p s.0 s.1).0 in
      let next = (post p s.0 s.1).1 in
      (after-keeps p r ps next (post-IsSettled p s.0 s.1), after-AllSettled ps next)

  -- Settled sources get their answers, and the world stays as it is.
  replies-settled :
      (ps : List Payload) (rs : List Reply) (k : ℕ) (w : World)
      → AllSettled ps rs w
      → (replies ps (k, w) ≡ rs) × ((after ps (k, w)).1 ≡ w)
  unfolding replies after post
  replies-settled [] [] k w h = (refl, refl)
  replies-settled [] (r ∷ rs) k w h = elim h [ ]
  replies-settled (p ∷ ps) [] k w h = elim h [ ]
  replies-settled (p ∷ ps) (r ∷ rs) k w (h, hs) =
      let (same, still) = post-settled p r k w h in
      let next = (post p k w).1 in
      let (rest, world) = replies-settled ps rs next.0 next.1 (rw still hs) in
      (ap (λ x. x ∷ replies ps next) same ∙ ap (λ x. r ∷ x) rest, world ∙ still)

  -- What the handler reports; nothing for a form that it rejects.
  abbrev pub progress_of : Result Rejected (Progress × Redirect) → Progress
  progress_of (ok (p, redirect)) = p
  progress_of (err e) = nothing_yet

  create_task-passed :
      (U : Unicode) (torf : Torf) (user : ℕ) (form : Form) (s : ℕ × World) (sources : List Text)
      → check_form U torf form ≡ ok sources
      → (r : Redirect) × (create_task api U torf user form s
          ≡ (ok ((post_form api user form sources s).0, r), (post_form api user form sources s).1))
  unfolding create_task
  create_task-passed U torf user form s sources h =
      let (p, s') = post_form api user form sources s in
      (redirect_for api (p.created_tasks ++ p.reused_tasks) s', rw (create_task, h) refl)

  create_task-stopped :
      (U : Unicode) (torf : Torf) (user : ℕ) (form : Form) (s : ℕ × World) (e : Rejected)
      → check_form U torf form ≡ err e
      → create_task api U torf user form s ≡ (err e, s)
  unfolding create_task
  create_task-stopped U torf user form s e h = rw (create_task, h) refl

  post_form-IsAgain :
      (user : ℕ) (form : Form) (sources : List Text) (s : ℕ × World)
      → let first = post_form api user form sources s in
        let second = post_form api user form sources first.1 in
        (second.1.1 ≡ first.1.1) × IsAgain second.0 first.0
  unfolding post_form
  post_form-IsAgain user form sources s =
      let ps = payloads form user (length sources) 0 sources in
      let (same, still) =
        replies-settled ps (map again (replies ps s)) (after ps s).0 (after ps s).1
          (after-AllSettled ps s) in
      rw (post_all-eq ps 0 nothing_yet s, post_all-eq ps 0 nothing_yet (after ps s), same)
        (still, record_all-IsAgain 0 (replies ps s) nothing_yet nothing_yet nothing_IsAgain)
    where
      nothing_IsAgain : IsAgain nothing_yet nothing_yet
      nothing_IsAgain = record {
        created = refl;
        failed = refl;
        reused = λ id. unfold elem_of in refl;
      }

  -- Where the API is reached each time, a form that is submitted again, as by a second click, changes nothing: the
  -- world stays as it was, no task is reported as created, exactly the sources that failed fail again with the same
  -- messages, and the tasks reported as reused are those that the first submission reported as created or reused.
  pub create_task-twice :
      (U : Unicode) (torf : Torf) (user : ℕ) (form : Form) (s : ℕ × World)
      → let first = create_task api U torf user form s in
        let second = create_task api U torf user form first.1 in
        (second.1.1 ≡ first.1.1) × IsAgain (progress_of second.0) (progress_of first.0)
  create_task-twice U torf user form s = by_check (check_form U torf form) refl
    where
      by_check :
          (r : Result Rejected (List Text))
          → check_form U torf form ≡ r
          → let first = create_task api U torf user form s in
            let second = create_task api U torf user form first.1 in
            (second.1.1 ≡ first.1.1) × IsAgain (progress_of second.0) (progress_of first.0)
      by_check (err e) h =
          let stopped = create_task-stopped U torf user form s e h in
          rw (stopped, stopped)
            (refl, record { created = refl; failed = refl; reused = λ id. unfold elem_of in refl })
      by_check (ok sources) h =
          let (r, first) = create_task-passed U torf user form s sources h in
          let (q, second) =
            create_task-passed U torf user form (post_form api user form sources s).1 sources h in
          rw (first, second) (post_form-IsAgain user form sources s)
