-- ===== src/Validation/Ids/Laws.antt =====
-- The task ids that app/validation.py lets through.
use mathlib.Core.List.{append_assoc, append-nil}
use all_debrid_proxy.Base.{
  ℕ, zero, suc, ◌+◌, ◌≤◌, ◌<◌, ◌≡◌, refl, ap, ◌∙◌, ◌++◌, true, false, ◌||◌, Option, none, some, [],
  ◌∷◌, map, arith, ◌==◌, Bool-cases, inl, inr, ◌⊎◌, Text, is_empty, has_char, split, length, All,
  All-append, ok, >>-eq-ok, length-append, Option-cases,
}
use all_debrid_proxy.Base.Unicode.{Unicode, IsAscii, to_lower}
use all_debrid_proxy.Base.Splitting.{split-append, split-eq_of_absent}
use all_debrid_proxy.Validation.Invalid
use all_debrid_proxy.Validation.Ids.{
  is_hex, repeat, literal, then_match, at_end, uuid_groups, matches_uuid, validate_task_id,
}

-- A character of a task id before it is turned to lower case.
abbrev pub IdChar : ℕ → Type 0
IdChar c = ((is_hex c || c == b'-') || c == 10) ≡ true

-- `r` is what remains of `s` after `n` characters of ids.
abbrev pub Consumes : ℕ → Text → Text → Type 0
Consumes n s r = (t : Text) × (s ≡ t ++ r) × (length t ≡ n) × All IdChar t

repeat-Consumes : (n : ℕ) (s r : Text) → repeat is_hex n s ≡ some r → Consumes n s r
unfolding repeat
repeat-Consumes zero s r h = ([], ground arith, refl, tt)
repeat-Consumes (suc n) [] r h = cc
repeat-Consumes (suc n) (c ∷ s) r h = elim (Bool-cases (is_hex c)) [
  | inl e ↦
      let (t, p, l, a) = repeat-Consumes n s r (ground arith) in
      (c ∷ t, ap (λ x. c ∷ x) p, ap suc l, (ground arith, a))
  | inr e ↦ absurd (ground arith)
]

literal-Consumes : (s r : Text) → literal b'-' s ≡ some r → Consumes 1 s r
literal-Consumes [] r h = cc
literal-Consumes (c ∷ s) r h = (c ∷ [], ground arith, refl, (ground arith, tt))

then_match-Consumes :
    (m n : ℕ) (s r : Text) (o : Option Text) (f : Text → Option Text)
    → ((u : Text) → o ≡ some u → Consumes m s u)
    → ((u v : Text) → f u ≡ some v → Consumes n u v)
    → then_match o f ≡ some r
    → Consumes (m + n) s r
then_match-Consumes m n s r none f first second h = cc
then_match-Consumes m n s r (some u) f first second h =
    let (t, p, l, a) = first u refl in
    let (t', p', l', a') = second u r h in
    (
      t ++ t',
      ground (arith, append_assoc t t' r),
      omega (arith, length-append t t'),
      All-append IdChar t t' a a',
    )

dashed-Consumes :
    (n : ℕ) (s r : Text)
    → then_match (literal b'-' s) (repeat is_hex n) ≡ some r
    → Consumes (1 + n) s r
dashed-Consumes n s r =
    then_match-Consumes 1 n s r (literal b'-' s) (repeat is_hex n) (literal-Consumes s)
      (repeat-Consumes n)

pub uuid_groups-Consumes : (s r : Text) → uuid_groups s ≡ some r → Consumes 36 s r
unfolding uuid_groups
uuid_groups-Consumes s r =
    then_match-Consumes 23 (1 + 12) s r _ _
      (λ u.
        then_match-Consumes 18 (1 + 4) s u _ _
          (λ v.
            then_match-Consumes 13 (1 + 4) s v _ _
              (λ w. then_match-Consumes 8 (1 + 4) s w _ _ (repeat-Consumes 8 s) (dashed-Consumes 4))
              (dashed-Consumes 4))
          (dashed-Consumes 4))
      (dashed-Consumes 12)

pub IdChar-IsAscii : (s : Text) → All IdChar s → IsAscii s
unfolding is_hex
IdChar-IsAscii [] h = tt
IdChar-IsAscii (c ∷ s) h = (id_char_ascii c h.0, IdChar-IsAscii s h.1)
  where
    id_char_ascii : (c : ℕ) → IdChar c → c < 128
    id_char_ascii c h = ground arith

at_end-cases : (r : Text) → at_end r ≡ true → (r ≡ []) ⊎ (r ≡ 10 ∷ [])
at_end-cases [] h = inl refl
at_end-cases (c ∷ []) h = inr (ground arith)
at_end-cases (c ∷ d ∷ s) h = cc

-- A text that the pattern of UUIDs matches, up to its trailing line break.
pub matches_uuid-cases :
    (s : Text)
    → matches_uuid s ≡ true
    → (t : Text) × (length t ≡ 36) × All IdChar t × ((s ≡ t) ⊎ (s ≡ t ++ (10 ∷ [])))
unfolding matches_uuid
matches_uuid-cases s h = elim (Option-cases (uuid_groups s)) [
  | inl e ↦ cc (rw e at h)
  | inr (r, e) ↦
      let (t, p, l, a) = uuid_groups-Consumes s r e in
      let ends : at_end r ≡ true = rw e at h in
      elim (at_end-cases r ends) [
        | inl q ↦ (t, l, a, inl (p ∙ (rw q (append-nil t))))
        | inr q ↦ (t, l, a, inr (p ∙ ap (λ x. t ++ x) q))
      ]
]

pub IdChar-whole : (s t : Text) → All IdChar t → (s ≡ t) ⊎ (s ≡ t ++ (10 ∷ [])) → All IdChar s
IdChar-whole s t a (inl e) = rw e a
IdChar-whole s t a (inr e) = rw e (All-append IdChar t (10 ∷ []) a (ground arith, tt))

pub validate_task_id-eq-ok :
    (U : Unicode) (s r : Text)
    → validate_task_id U s ≡ ok r
    → (matches_uuid s ≡ true) × (r ≡ Unicode.lower U s)
unfolding validate_task_id
validate_task_id-eq-ok U s r h =
    let (_, k) = >>-eq-ok (is_empty s) Invalid.task_id_required _ h in
    elim (Bool-cases (matches_uuid s)) [ inl e ↦ (e, ground arith) | inr e ↦ absurd (ground arith) ]

lowered-IdChar : (c : ℕ) → IdChar c → (to_lower c == b'/') ≡ false
unfolding is_hex
lowered-IdChar c h = ground arith

lowered_no_slash : (s : Text) → All IdChar s → has_char b'/' (map to_lower s) ≡ false
lowered_no_slash [] h = refl
lowered_no_slash (c ∷ s) h = rw (lowered-IdChar c h.0) (lowered_no_slash s h.1)

length-map_lower : (s : Text) → length (map to_lower s) ≡ length s
length-map_lower [] = refl
length-map_lower (c ∷ s) = ap suc (length-map_lower s)

long_enough : (s t : Text) → length t ≡ 36 → (s ≡ t) ⊎ (s ≡ t ++ (10 ∷ [])) → 36 ≤ length s
long_enough s t l (inl e) = rw e (omega arith)
long_enough s t l (inr e) = rw e (omega (arith, length-append t (10 ∷ [])))

-- An accepted task id comes back in lower case. It has 36 or 37 characters, and
-- under any directory it adds exactly one component to the path.
pub validate_task_id-one_component :
    (U : Unicode) (s r root : Text)
    → validate_task_id U s ≡ ok r
    → (r ≡ map to_lower s)
      × (36 ≤ length r)
      × (length r ≤ 37)
      × (split b'/' (root ++ (b'/' ∷ r)) ≡ split b'/' root ++ (r ∷ []))
validate_task_id-one_component U s r root h =
    let (matched, e) = validate_task_id-eq-ok U s r h in
    let (t, l, a, c) = matches_uuid-cases s matched in
    let chars = IdChar-whole s t a c in
    let lowered = e ∙ Unicode.lower-ascii U s (IdChar-IsAscii s chars) in
    let lower_bound = long_enough s t l c in
    (
      lowered,
      rw (lowered, length-map_lower s) lower_bound,
      rw (lowered, length-map_lower s) (short_enough s t l c),
      split-append b'/' root r
          ∙ ap (λ ps. split b'/' root ++ ps)
              (split-eq_of_absent b'/' r (rw lowered (lowered_no_slash s chars))),
    )
  where
    short_enough : (s t : Text) → length t ≡ 36 → (s ≡ t) ⊎ (s ≡ t ++ (10 ∷ [])) → length s ≤ 37
    short_enough s t l (inl e) = rw e (omega arith)
    short_enough s t l (inr e) = rw e (omega (arith, length-append t (10 ∷ [])))
