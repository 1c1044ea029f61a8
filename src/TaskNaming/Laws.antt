-- ===== src/TaskNaming/Laws.antt =====
-- The characters and lengths of the names that app/task_naming.py generates.
use all_debrid_proxy.Base.{
  ℕ, zero, suc, ◌≤◌, ◌≡◌, refl, true, false, not, Option, none, some, List, [], ◌∷◌, map, arith,
  ltb, ◌==◌, if◌then◌else◌, Bool-cases, inl, inr, Text, is_empty, lstrip, length, take, filter, All,
  All-take, length-take,
}
use all_debrid_proxy.Base.Unicode.{Unicode}
use all_debrid_proxy.Base.Splitting.{
  All-lstrip, All-rstrip, length-rstrip-le, StartsOutside, EndsOutside, lstrip-StartsOutside,
  rstrip-EndsOutside, rstrip-StartsOutside,
}
use all_debrid_proxy.Constants.{SourceType}
use all_debrid_proxy.TaskNaming.{
  UrlLib, max_task_name_length, is_path_sep, is_edge, is_sep, is_allowed, strip_path_prefix,
  Pending, flush, add_sep, collapse, strip_edges, clean, cut, normalize, first_name, fallback,
  name_or_fallback, Metadata, gather_candidates, generate_task_name,
}

abbrev Allowed : Unicode → ℕ → Type 0
Allowed U c = is_allowed U c ≡ true

dot-Allowed : (U : Unicode) → Allowed U b'.'
unfolding is_allowed
dot-Allowed U = ground arith

abbrev PendingAllowed : Unicode → Pending → Type 0
PendingAllowed U Pending.nothing = Unit
PendingAllowed U (Pending.one c) = Allowed U c
PendingAllowed U Pending.many = Unit

All-flush :
    (U : Unicode) (p : Pending) (s : Text)
    → PendingAllowed U p
    → All (Allowed U) s
    → All (Allowed U) (flush p s)
All-flush U Pending.nothing s hp h = h
All-flush U (Pending.one c) s hp h = (hp, h)
All-flush U Pending.many s hp h = (dot-Allowed U, h)

add_sep-PendingAllowed :
    (U : Unicode) (p : Pending) (c : ℕ) → Allowed U c → PendingAllowed U (add_sep p c)
add_sep-PendingAllowed U Pending.nothing c h = h
add_sep-PendingAllowed U (Pending.one d) c h = tt
add_sep-PendingAllowed U Pending.many c h = tt

All-collapse :
    (U : Unicode) (p : Pending) (s : Text)
    → PendingAllowed U p
    → All (Allowed U) s
    → All (Allowed U) (collapse p s)
unfolding collapse
All-collapse U p [] hp h = All-flush U p [] hp tt
All-collapse U p (c ∷ s) hp h = elim (Bool-cases (is_sep c)) [
  | inl e ↦ rw (e, collapse) (All-collapse U (add_sep p c) s (add_sep-PendingAllowed U p c h.0) h.1)
  | inr e ↦
      rw (e, collapse)
        (All-flush U p (c ∷ collapse Pending.nothing s) hp
          (h.0, All-collapse U Pending.nothing s tt h.1))
]

All-filter_test : (U : Unicode) (s : Text) → All (Allowed U) (filter (is_allowed U) s)
All-filter_test U [] = tt
All-filter_test U (c ∷ s) = elim (Bool-cases (is_allowed U c)) [
  | inl e ↦ rw e (e, All-filter_test U s)
  | inr e ↦ rw e (All-filter_test U s)
]

-- A display name: short enough, of allowed characters only, and without separators at its ends.
pub record IsDisplayName (U : Unicode) (name : Text) : Type 0 where
  pub short : length name ≤ max_task_name_length
  pub allowed : All (λ c. is_allowed U c ≡ true) name
  pub starts : StartsOutside is_edge name
  pub ends : EndsOutside is_edge name

clean-Allowed : (U : Unicode) (name : Text) → All (Allowed U) (clean U name)
unfolding clean strip_edges
clean-Allowed U name =
    let kept =
      filter (is_allowed U)
        (map (λ (c : ℕ). if is_path_sep c then 32 else c) (strip_path_prefix name)) in
    let joined = collapse Pending.nothing kept in
    All-rstrip (Allowed U) is_edge (lstrip is_edge joined) (
      All-lstrip (Allowed U) is_edge joined (
        All-collapse U Pending.nothing kept tt (
          All-filter_test U
            (map (λ (c : ℕ). if is_path_sep c then 32 else c) (strip_path_prefix name)))))

strip_edges-ends :
    (s : Text) → StartsOutside is_edge (strip_edges s) × EndsOutside is_edge (strip_edges s)
unfolding strip_edges
strip_edges-ends s = (
  rstrip-StartsOutside is_edge (lstrip is_edge s) (lstrip-StartsOutside is_edge s),
  rstrip-EndsOutside is_edge (lstrip is_edge s),
)

clean-ends :
    (U : Unicode) (name : Text)
    → StartsOutside is_edge (clean U name) × EndsOutside is_edge (clean U name)
unfolding clean
clean-ends U name = strip_edges-ends (
    collapse Pending.nothing (
      filter (is_allowed U)
        (map (λ (c : ℕ). if is_path_sep c then 32 else c) (strip_path_prefix name))))

take-StartsOutside : (n : ℕ) (s : Text) → StartsOutside is_edge s → StartsOutside is_edge (take n s)
take-StartsOutside zero s h = tt
take-StartsOutside (suc n) [] h = tt
take-StartsOutside (suc n) (c ∷ s) h = h

cut-IsDisplayName :
    (U : Unicode) (s : Text)
    → All (Allowed U) s
    → StartsOutside is_edge s
    → EndsOutside is_edge s
    → IsDisplayName U (cut s)
unfolding cut
cut-IsDisplayName U s a st en = elim (Bool-cases (ltb max_task_name_length (length s))) [
  | inr e ↦ rw e (record { short = ground arith; allowed = a; starts = st; ends = en })
  | inl e ↦ rw e (record {
    short = omega (arith, length-rstrip-le is_edge (take 120 s), length-take 120 s);
    allowed = All-rstrip (Allowed U) is_edge (take 120 s) (All-take (Allowed U) 120 s a);
    starts = rstrip-StartsOutside is_edge (take 120 s) (take-StartsOutside 120 s st);
    ends = rstrip-EndsOutside is_edge (take 120 s);
  })
]

-- Whatever the input, a normalised name has at most 120 characters, all of them word characters, white
-- space, dots, hyphens, underscores, parentheses or brackets, and neither begins nor ends with a space,
-- a dot, an underscore or a hyphen.
pub normalize-IsDisplayName : (U : Unicode) (name : Text) → IsDisplayName U (normalize U name)
unfolding normalize
normalize-IsDisplayName U [] = record { short = omega arith; allowed = tt; starts = tt; ends = tt }
normalize-IsDisplayName U (c ∷ s) =
    cut-IsDisplayName U (clean U (c ∷ s)) (clean-Allowed U (c ∷ s)) (clean-ends U (c ∷ s)).0
      (clean-ends U (c ∷ s)).1

first_name-is_named :
    (U : Unicode) (cs : List Text) (n : Text)
    → first_name U cs ≡ some n
    → (is_empty n ≡ false) × (length n ≤ 120)
unfolding first_name
first_name-is_named U [] n h = cc
first_name-is_named U (raw ∷ rest) n h = elim (Bool-cases (is_empty (normalize U raw))) [
  | inl e ↦ first_name-is_named U rest n (rw e at h)
  | inr e ↦
      let same : normalize U raw ≡ n = some_inj (rw e at h) in
      (rw (← same) e, rw (← same) ((normalize-IsDisplayName U raw).short))
]
  where
    some_inj : {a b : Text} → some a ≡ some b → a ≡ b
    some_inj h = cc

fallback-is_named :
    (o : Option Text) → (is_empty (fallback o) ≡ false) × (length (fallback o) ≤ 120)
fallback-is_named none = (refl, omega arith)
fallback-is_named (some []) = (refl, omega arith)
fallback-is_named (some (c ∷ s)) =
    (refl, omega (arith, length-take 8 (filter (λ d. not (d == b'-')) (c ∷ s))))

named_or_fallback :
    (U : Unicode) (cs : List Text) (task_id : Option Text) (o : Option Text)
    → first_name U cs ≡ o
    → (is_empty (name_or_fallback o task_id) ≡ false) × (length (name_or_fallback o task_id) ≤ 120)
named_or_fallback U cs task_id none e = fallback-is_named task_id
named_or_fallback U cs task_id (some n) e = first_name-is_named U cs n e

-- A generated task name is never empty and has at most 120 characters, whatever the metadata.
generate_task_name-is_named :
    (U : Unicode) (L : UrlLib) (source : Text) (t : SourceType) (m : Metadata)
    → (is_empty (generate_task_name U L source t m) ≡ false)
      × (length (generate_task_name U L source t m) ≤ max_task_name_length)
unfolding generate_task_name
generate_task_name-is_named U L source t m =
    let cs = gather_candidates L source t m in
    named_or_fallback U cs m.task_id (first_name U cs) refl
