-- ===== src/Validation/Ids/LineBreak.antt =====
-- The pattern of task ids ends in `$`, which also stands before a last line break.
use all_debrid_proxy.Base.{
  ℕ, zero, suc, ◌<◌, ◌≡◌, refl, sym, ap, ◌∙◌, ◌++◌, true, false, Option, some, [], ◌∷◌, map, arith,
  Option-cases, inl, inr, Text, is_empty, length, All-append, ok, length-append,
}
use all_debrid_proxy.Base.Unicode.{Unicode, to_lower}
use all_debrid_proxy.Validation.Ids.{
  is_hex, repeat, literal, then_match, uuid_groups, matches_uuid, validate_task_id,
}
use all_debrid_proxy.Validation.Ids.Laws.{
  IdChar-IsAscii, IdChar-whole, matches_uuid-cases, validate_task_id-eq-ok, uuid_groups-Consumes,
}

-- The regular expressions read on over what follows their match.
repeat-append :
    (n : ℕ) (s r t : Text) → repeat is_hex n s ≡ some r → repeat is_hex n (s ++ t) ≡ some (r ++ t)
unfolding repeat
repeat-append zero s r t h = ground arith
repeat-append (suc n) [] r t h = cc
repeat-append (suc n) (c ∷ s) r t h = ground (arith, repeat-append n s r t)

literal-append : (s r t : Text) → literal b'-' s ≡ some r → literal b'-' (s ++ t) ≡ some (r ++ t)
literal-append [] r t h = cc
literal-append (c ∷ s) r t h = ground arith

then_match-append :
    (s r t : Text) (f g : Text → Option Text)
    → ((u : Text) → f s ≡ some u → f (s ++ t) ≡ some (u ++ t))
    → ((u v : Text) → g u ≡ some v → g (u ++ t) ≡ some (v ++ t))
    → then_match (f s) g ≡ some r
    → then_match (f (s ++ t)) g ≡ some (r ++ t)
then_match-append s r t f g first second h = elim (Option-cases (f s)) [
  | inl e ↦ cc (rw e at h)
  | inr (u, e) ↦ rw (first u e) (second u r (rw e at h))
]

dashed-append :
    (n : ℕ) (t s r : Text)
    → then_match (literal b'-' s) (repeat is_hex n) ≡ some r
    → then_match (literal b'-' (s ++ t)) (repeat is_hex n) ≡ some (r ++ t)
dashed-append n t s r =
    then_match-append s r t (literal b'-') (repeat is_hex n) (λ u. literal-append s u t)
      (λ u v. repeat-append n u v t)

uuid_groups-append : (s r t : Text) → uuid_groups s ≡ some r → uuid_groups (s ++ t) ≡ some (r ++ t)
unfolding uuid_groups
uuid_groups-append s r t =
    then_match-append s r t
      (λ x.
        then_match (then_match (then_match (repeat is_hex 8 x) (dashed 4)) (dashed 4)) (dashed 4))
      (dashed 12)
      (λ u.
        then_match-append s u t
          (λ x. then_match (then_match (repeat is_hex 8 x) (dashed 4)) (dashed 4)) (dashed 4)
          (λ v.
            then_match-append s v t (λ x. then_match (repeat is_hex 8 x) (dashed 4)) (dashed 4)
              (λ w.
                then_match-append s w t (repeat is_hex 8) (dashed 4) (λ x. repeat-append 8 s x t)
                  (dashed-append 4 t))
              (dashed-append 4 t))
          (dashed-append 4 t))
      (dashed-append 12 t)
  where
    dashed : ℕ → Text → Option Text
    dashed n x = then_match (literal b'-' x) (repeat is_hex n)

whole_match : (s : Text) → length s ≡ 36 → matches_uuid s ≡ true → uuid_groups s ≡ some []
unfolding matches_uuid
whole_match s l h = elim (Option-cases (uuid_groups s)) [
  | inl e ↦ cc (rw e at h)
  | inr (r, e) ↦
      let (t, p, n, a) = uuid_groups-Consumes s r e in
      e ∙ ap some (empty_rest r (omega (arith, ap length p, length-append t r)))
]
  where
    empty_rest : (r : Text) → length r ≡ 0 → r ≡ []
    empty_rest [] e = refl
    empty_rest (c ∷ r) e = absurd (omega arith)

matches_uuid-append_line_break :
    (s : Text) → length s ≡ 36 → matches_uuid s ≡ true → matches_uuid (s ++ (10 ∷ [])) ≡ true
matches_uuid-append_line_break s l h =
    unfold matches_uuid in rw (uuid_groups-append s [] (10 ∷ []) (whole_match s l h)) refl

ok-validate_task_id :
    (U : Unicode) (s : Text)
    → is_empty s ≡ false
    → matches_uuid s ≡ true
    → validate_task_id U s ≡ ok (Unicode.lower U s)
unfolding validate_task_id
ok-validate_task_id U s e m = ground arith

map-append_one :
    (s : Text) (c : ℕ) → map to_lower (s ++ (c ∷ [])) ≡ map to_lower s ++ (to_lower c ∷ [])
map-append_one [] c = refl
map-append_one (d ∷ s) c = ap (λ x. to_lower d ∷ x) (map-append_one s c)

append_nonempty : (s : Text) (c : ℕ) → is_empty (s ++ (c ∷ [])) ≡ false
append_nonempty [] c = refl
append_nonempty (d ∷ s) c = refl

-- Every task id of 36 characters that is accepted is also accepted with a line break behind it, and the
-- line break is part of the id that the validator returns.
validate_task_id-append_line_break :
    (U : Unicode) (s r : Text)
    → length s ≡ 36
    → validate_task_id U s ≡ ok r
    → validate_task_id U (s ++ (10 ∷ [])) ≡ ok (r ++ (10 ∷ []))
validate_task_id-append_line_break U s r l h =
    let (matched, e) = validate_task_id-eq-ok U s r h in
    let (t, n, a, c) = matches_uuid-cases s matched in
    let chars = IdChar-whole s t a c in
    let ascii = IdChar-IsAscii s chars in
    let longer = All-append (λ c. c < 128) s (10 ∷ []) ascii (omega arith) in
    ok-validate_task_id U (s ++ (10 ∷ [])) (append_nonempty s 10)
      (matches_uuid-append_line_break s l matched)
    ∙ ap ok (
        Unicode.lower-ascii U (s ++ (10 ∷ [])) longer
        ∙ map-append_one s 10
        ∙ sym (ap (λ x. x ++ (10 ∷ [])) (e ∙ Unicode.lower-ascii U s ascii)))
