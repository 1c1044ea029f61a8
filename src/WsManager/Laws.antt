-- ===== src/WsManager/Laws.antt =====
-- Who follows a task after the operations of app/ws_manager.py.
use all_debrid_proxy.Base.{
  ℕ, ◌≡◌, refl, sym, ap, ◌∙◌, Bool, true, false, not, ◌&&◌, ◌||◌, Option, none, some, List, [], ◌∷◌,
  ◌++◌, arith, ◌==◌, if◌then◌else◌, Bool-cases, Option-cases, inl, inr, Text, text_eq, text_eq_refl,
  text_eq→eq, filter,
}
use all_debrid_proxy.WsManager.{
  Connections, mem, lookup, store, delete, or_empty, insert, discard, add, keep_if_any, remove,
  remove_all, broadcast,
}

-- The websocket follows the task.
unfoldable pub follows : Text → ℕ → Connections → Bool
unfolding lookup
follows id ws c = mem ws (or_empty (lookup id c))

lookup-store :
    (j id : Text) (s : List ℕ) (c : Connections)
    → lookup j (store id s c) ≡ (if text_eq j id then some s else lookup j c)
unfolding lookup store
lookup-store j id s [] = refl
lookup-store j id s ((k, t) ∷ c) = elim (Bool-cases (text_eq id k)) [
  | inl e ↦ rw (e, text_eq→eq id k e) (same (some s) (lookup j c) (some t) (text_eq j k))
  | inr e ↦ elim (Bool-cases (text_eq j id)) [
    | inl f ↦ rw (e, lookup-store j id s c, f, ap (λ x. text_eq x k) (text_eq→eq j id f) ∙ e) refl
    | inr f ↦ rw (e, lookup-store j id s c, f) refl
  ]
]
  where
    same :
        (a b t : Option (List ℕ)) (p : Bool)
        → (if p then a else b) ≡ (if p then a else (if p then t else b))
    same a b t true = refl
    same a b t false = refl

lookup-delete :
    (j id : Text) (c : Connections)
    → lookup j (delete id c) ≡ (if text_eq j id then none else lookup j c)
unfolding lookup delete
lookup-delete j id [] = same none (text_eq j id)
  where
    same : (a : Option (List ℕ)) (p : Bool) → a ≡ (if p then a else a)
    same a true = refl
    same a false = refl
lookup-delete j id ((k, t) ∷ c) = elim (Bool-cases (text_eq id k)) [
  | inl e ↦ elim (Bool-cases (text_eq j id)) [
    | inl f ↦ rw (e, lookup-delete j id c, f) refl
    | inr f ↦ rw (e, lookup-delete j id c, f, ap (text_eq j) (sym (text_eq→eq id k e)) ∙ f) refl
  ]
  | inr e ↦ elim (Bool-cases (text_eq j id)) [
    | inl f ↦ rw (e, f, ap (λ x. text_eq x k) (text_eq→eq j id f) ∙ e, lookup-delete j id c, f) refl
    | inr f ↦ rw (e, lookup-delete j id c, f) refl
  ]
]

eqb→eq : (m n : ℕ) → (m == n) ≡ true → m ≡ n
eqb→eq m n h = ground arith

or_false : (b : Bool) → b ≡ (b || false)
or_false true = refl
or_false false = refl

and_true : (b : Bool) → b ≡ (b && true)
and_true true = refl
and_true false = refl

mem-append : (v : ℕ) (s t : List ℕ) → mem v (s ++ t) ≡ (mem v s || mem v t)
mem-append v [] t = refl
mem-append v (x ∷ s) t = ground (arith, mem-append v s t)

mem-filter : (v : ℕ) (p : ℕ → Bool) (s : List ℕ) → mem v (filter p s) ≡ (mem v s && p v)
mem-filter v p [] = refl
mem-filter v p (x ∷ s) = ground (arith, mem-filter v p s, same_test)
  where
    same_test : (x == v) ≡ true → p x ≡ p v
    same_test e = ap p (eqb→eq x v e)

mem-insert : (v ws : ℕ) (s : List ℕ) → mem v (insert ws s) ≡ (mem v s || v == ws)
mem-insert v ws s = elim (Bool-cases (mem ws s)) [
  | inl e ↦ rw e (elim (Bool-cases (v == ws)) [
    | inl f ↦
        let there : mem v s ≡ true = ap (λ x. mem x s) (eqb→eq v ws f) ∙ e in
        there ∙ sym (ap (λ b. b || (v == ws)) there)
    | inr f ↦ rw f (or_false (mem v s))
  ])
  | inr e ↦ rw (e, mem-append v s (ws ∷ [])) (ground arith)
]

-- Adding a websocket to a task makes it follow that task, and changes nothing else.
follows-add :
    (j id : Text) (v ws : ℕ) (c : Connections)
    → follows j v (add id ws c) ≡ (follows j v c || (text_eq j id && v == ws))
unfolding follows add
follows-add j id v ws c = elim (Bool-cases (text_eq j id)) [
  | inl e ↦
      rw (lookup-store j id (insert ws (or_empty (lookup id c))) c, e, text_eq→eq j id e)
        (mem-insert v ws (or_empty (lookup id c)))
  | inr e ↦
      rw (lookup-store j id (insert ws (or_empty (lookup id c))) c, e) (or_false (follows j v c))
]

follows-delete :
    (j id : Text) (v : ℕ) (c : Connections)
    → follows j v (delete id c) ≡ (follows j v c && not (text_eq j id))
unfolding follows
follows-delete j id v c = rw (lookup-delete j id c) (by_key (text_eq j id))
  where
    by_key :
        (p : Bool)
        → mem v (or_empty (if p then none else lookup j c))
          ≡ (mem v (or_empty (lookup j c)) && not p)
    by_key true = ground arith
    by_key false = ground arith

follows-keep_if_any :
    (j id : Text) (v : ℕ) (s : List ℕ) (c : Connections)
    → follows j v (keep_if_any id s c) ≡ (if text_eq j id then mem v s else follows j v c)
unfolding follows store delete
follows-keep_if_any j id v [] c = follows-delete j id v c ∙ by_key (text_eq j id) (follows j v c)
  where
    by_key : (p b : Bool) → (b && not p) ≡ (if p then false else b)
    by_key p b = ground arith
follows-keep_if_any j id v (x ∷ s) c = rw (lookup-store j id (x ∷ s) c) (by_key (text_eq j id))
  where
    by_key :
        (p : Bool)
        → mem v (or_empty (if p then some (x ∷ s) else lookup j c))
          ≡ (if p then mem v (x ∷ s) else mem v (or_empty (lookup j c)))
    by_key true = refl
    by_key false = refl

-- Removing a websocket from a task ends that it follows the task, and changes nothing else.
follows-remove :
    (j id : Text) (v ws : ℕ) (c : Connections)
    → follows j v (remove id ws c) ≡ (follows j v c && not (text_eq j id && v == ws))
unfolding follows remove
follows-remove j id v ws c = by_key (text_eq j id) refl
  where
    by_key :
        (p : Bool)
        → text_eq j id ≡ p
        → follows j v (remove id ws c) ≡ (follows j v c && not (p && v == ws))
    by_key true e = elim (Option-cases (lookup id c)) [
      | inl n ↦ rw (n, remove, text_eq→eq j id e, n) refl
      | inr (s, n) ↦
          rw (n, remove, text_eq→eq j id e, n)
            (follows-keep_if_any id id v (discard ws s) c
              ∙ rw (text_eq_refl id) (mem-filter v (λ x. not (x == ws)) s))
    ]
    by_key false e = elim (Option-cases (lookup id c)) [
      | inl n ↦ rw (n, remove) (and_true (follows j v c))
      | inr (s, n) ↦
          rw (n, remove)
            ((follows-keep_if_any j id v (discard ws s) c ∙ rw e refl) ∙ and_true (follows j v c))
    ]

follows-remove_all :
    (j id : Text) (v : ℕ) (dead : List ℕ) (c : Connections)
    → follows j v (remove_all id dead c) ≡ (follows j v c && not (text_eq j id && mem v dead))
unfolding remove_all
follows-remove_all j id v [] c = by_key (text_eq j id) (follows j v c)
  where
    by_key : (p b : Bool) → b ≡ (b && not (p && false))
    by_key p b = ground arith
follows-remove_all j id v (ws ∷ dead) c =
    follows-remove_all j id v dead (remove id ws c)
    ∙ ap (λ b. b && not (text_eq j id && mem v dead)) (follows-remove j id v ws c)
    ∙ both (text_eq j id) (follows j v c) (mem v dead)
  where
    both :
        (p b m : Bool)
        → ((b && not (p && v == ws)) && not (p && m)) ≡ (b && not (p && (ws == v || m)))
    both p b m = ground arith

-- After a broadcast to a task, exactly those websockets that followed the task and did not take the
-- message do not follow it any more; all others follow what they followed.
pub follows-broadcast :
    (takes : ℕ → Bool) (j id : Text) (v : ℕ) (c : Connections)
    → follows j v (broadcast takes id c) ≡ (follows j v c && not (text_eq j id && not (takes v)))
unfolding follows broadcast
follows-broadcast takes j id v c = by_key (text_eq j id) refl
  where
    dead : List ℕ → List ℕ
    dead s = filter (λ ws. not (takes ws)) s

    once : (a b : Bool) → (a && not (a && b)) ≡ (a && not b)
    once a b = ground arith

    by_key :
        (p : Bool)
        → text_eq j id ≡ p
        → follows j v (broadcast takes id c) ≡ (follows j v c && not (p && not (takes v)))
    by_key true e = elim (Option-cases (lookup id c)) [
      | inl n ↦ rw (n, broadcast, text_eq→eq j id e, n) refl
      | inr (s, n) ↦
          rw (n, broadcast, text_eq→eq j id e, n)
            (follows-remove_all id id v (dead s) c
              ∙ rw (text_eq_refl id, n, mem-filter v (λ ws. not (takes ws)) s)
                  (once (mem v s) (not (takes v))))
    ]
    by_key false e = elim (Option-cases (lookup id c)) [
      | inl n ↦ rw (n, broadcast) (and_true (follows j v c))
      | inr (s, n) ↦ rw (n, broadcast) (follows-remove_all j id v (dead s) c ∙ rw e refl)
    ]
