-- ===== src/Frontend/Submit/Recorded.antt =====
-- How `create_task` of frontend/app.py sorts the answers of the API into created, reused and failed ones.
use all_debrid_proxy.Base.{
  ℕ, ◌+◌, ◌≡◌, refl, ap, ◌∙◌, true, false, ◌||◌, List, [], ◌∷◌, ◌++◌, map, arith, Bool-cases, inl,
  inr, Text, text_eq, text_eq→eq, elem_of,
}
use all_debrid_proxy.Frontend.Submit.{Reply, Progress, Failure, add_new, record_reply}

-- What the API answers to a source that it has answered before.
abbrev pub again : Reply → Reply
again (Reply.refused m) = Reply.refused m
again (Reply.accepted id reused) = Reply.accepted id true

unfoldable pub record_all : ℕ → List Reply → Progress → Progress
unfolding record_reply
record_all i [] p = p
record_all i (r ∷ rs) p = record_all (i + 1) rs (record_reply i r p)

elem_of-append :
    (id x : Text) (ids : List Text)
    → elem_of id (ids ++ (x ∷ [])) ≡ (text_eq id x || elem_of id ids)
unfolding elem_of
elem_of-append id x [] = refl
elem_of-append id x (y ∷ ids) = ground (arith, elem_of-append id x ids)

elem_of-add_new :
    (id x : Text) (ids : List Text) → elem_of id (add_new x ids) ≡ (text_eq id x || elem_of id ids)
unfolding elem_of text_eq
elem_of-add_new id x ids = elim (Bool-cases (elem_of x ids)) [
  | inr e ↦ rw e (elem_of-append id x ids)
  | inl e ↦ elim (Bool-cases (text_eq id x)) [
    | inr n ↦ rw (e, n) refl
    | inl y ↦ rw (e, y) (ap (λ t. elem_of t ids) (text_eq→eq id x y) ∙ e)
  ]
]

-- `p` tells of answers that were given again, `q` of the first ones.
pub record IsAgain (p q : Progress) : Type 0 where
  pub created : p.created_tasks ≡ []
  pub failed : p.failed_sources ≡ q.failed_sources
  pub reused :
      (id : Text)
      → elem_of id p.reused_tasks ≡ (elem_of id q.created_tasks || elem_of id q.reused_tasks)

record_reply-IsAgain :
    (i : ℕ) (r : Reply) (p q : Progress)
    → IsAgain p q
    → IsAgain (record_reply i (again r) p) (record_reply i r q)
unfolding record_reply
record_reply-IsAgain i (Reply.refused m) p q h = record {
  created = h.created;
  failed = ap (λ fs. fs ++ (Failure.request_failed (i + 1) m ∷ [])) h.failed;
  reused = h.reused;
}
record_reply-IsAgain i (Reply.accepted [] b) p q h = record {
  created = h.created;
  failed = ap (λ fs. fs ++ (Failure.no_task_id (i + 1) ∷ [])) h.failed;
  reused = h.reused;
}
record_reply-IsAgain i (Reply.accepted (c ∷ s) true) p q h = record {
  created = h.created;
  failed = h.failed;
  reused = λ id. ground (
    arith,
    elem_of-add_new id (c ∷ s) p.reused_tasks,
    elem_of-add_new id (c ∷ s) q.reused_tasks,
    h.reused id,
  );
}
record_reply-IsAgain i (Reply.accepted (c ∷ s) false) p q h = record {
  created = h.created;
  failed = h.failed;
  reused = λ id. ground (
    arith,
    elem_of-add_new id (c ∷ s) p.reused_tasks,
    elem_of-add_new id (c ∷ s) q.created_tasks,
    h.reused id,
  );
}

pub record_all-IsAgain :
    (i : ℕ) (rs : List Reply) (p q : Progress)
    → IsAgain p q
    → IsAgain (record_all i (map again rs) p) (record_all i rs q)
unfolding record_all
record_all-IsAgain i [] p q h = h
record_all-IsAgain i (r ∷ rs) p q h =
    record_all-IsAgain (i + 1) rs (record_reply i (again r) p) (record_reply i r q)
      (record_reply-IsAgain i r p q h)
