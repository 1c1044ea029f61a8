-- ===== src/Validation/Names/Laws.antt =====
-- The names, labels and log values that app/validation.py lets through.
use mathlib.Core.Bool.{true≢false}
use all_debrid_proxy.Base.{
  ℕ, ◌+◌, ◌≤◌, ◌≡◌, ap, ◌∙◌, ◌≢◌, ◌++◌, false, some, [], ◌∷◌, map, arith, ltb, leb, if◌then◌else◌,
  Bool-cases, inl, inr, Text, codes, is_empty, has_char, elem_of, is_space, lstrip, rstrip, strip,
  split, length, take, filter, any, All, All-append, All-take, ok, length-take, length-append,
  length-filter-le, leb→le,
}
use all_debrid_proxy.Base.Unicode.{Unicode}
use all_debrid_proxy.Base.Splitting.{
  split-append, split-eq_of_absent, All-lstrip, All-rstrip, length-lstrip-le, length-rstrip-le,
  StartsOutside, EndsOutside, lstrip-StartsOutside, rstrip-EndsOutside, rstrip-StartsOutside,
}
use all_debrid_proxy.Constants.{max_filename_length, max_label_length}
use all_debrid_proxy.Validation.Names.{
  is_control, dangerous, text_or_none, validate_file_name, validate_label, sanitize_for_log,
}

-- What an accepted file name satisfies.
pub record IsSafeName (U : Unicode) (name : Text) : Type 0 where
  pub nonempty : is_empty name ≡ false
  pub short : length name ≤ max_filename_length
  pub no_slash : has_char b'/' name ≡ false
  pub no_backslash : has_char 92 name ≡ false
  pub no_null : has_char 0 name ≡ false
  pub no_control : any is_control name ≡ false
  pub not_reserved : elem_of (Unicode.upper U name) dangerous ≡ false

pub validate_file_name-eq-ok :
    (U : Unicode) (name r : Text)
    → validate_file_name U name ≡ ok r
    → (r ≡ name) × IsSafeName U name
unfolding validate_file_name
validate_file_name-eq-ok U name r h = ground arith

not-dots :
    (U : Unicode) (name : Text) → IsSafeName U name → (name ≢ codes ".") × (name ≢ codes "..")
unfolding elem_of
not-dots U name h = (
  λ e. true≢false (rw (e, Unicode.upper-ascii U (codes ".") (omega arith)) at h.not_reserved),
  λ e. true≢false (rw (e, Unicode.upper-ascii U (codes "..") (omega arith)) at h.not_reserved),
)

-- An accepted file name comes back unchanged. Under any directory it adds exactly one component to
-- the path, and that component is neither `.` nor `..`.
pub validate_file_name-one_component :
    (U : Unicode) (name r dir : Text)
    → validate_file_name U name ≡ ok r
    → (r ≡ name)
      × (split b'/' (dir ++ (b'/' ∷ name)) ≡ split b'/' dir ++ (name ∷ []))
      × (name ≢ codes ".")
      × (name ≢ codes "..")
validate_file_name-one_component U name r dir h =
    let (e, safe) = validate_file_name-eq-ok U name r h in
    let dots = not-dots U name safe in
    (
      e,
      split-append b'/' dir name
          ∙ ap (λ ps. split b'/' dir ++ ps) (split-eq_of_absent b'/' name safe.no_slash),
      dots.0,
      dots.1,
    )

printable_map : (s : Text) → All (λ (c : ℕ). 32 ≤ c) (map (λ (c : ℕ). if leb 32 c then c else 32) s)
printable_map [] = tt
printable_map (c ∷ s) = (ground arith, printable_map s)

-- What is written to a log holds no control character, so no line break either, and is at most three
-- characters longer than the limit.
sanitize_for_log-printable :
    (s : Text) (n : ℕ)
    → All (λ (c : ℕ). 32 ≤ c) (sanitize_for_log s n) × (length (sanitize_for_log s n) ≤ n + 3)
unfolding sanitize_for_log
sanitize_for_log-printable s n =
    let m = map (λ (c : ℕ). if leb 32 c then c else 32) s in
    elim (Bool-cases (ltb n (length m))) [
      | inl e ↦ rw e (
        All-append (λ (c : ℕ). 32 ≤ c) (take n m) (codes "...")
            (All-take (λ (c : ℕ). 32 ≤ c) n m (printable_map s)) (omega arith),
        omega (arith, length-append (take n m) (codes "..."), length-take n m),
      )
      | inr e ↦ rw e (printable_map s, ground arith)
    ]

-- A label as it is stored.
pub record IsCleanLabel (label : Text) : Type 0 where
  pub nonempty : is_empty label ≡ false
  pub short : length label ≤ max_label_length
  pub printable : All (λ (c : ℕ). 32 ≤ c) label
  pub starts : StartsOutside is_space label
  pub ends : EndsOutside is_space label

All-filter_test : (s : Text) → All (λ (c : ℕ). 32 ≤ c) (filter (λ c. leb 32 c) s)
All-filter_test [] = tt
All-filter_test (c ∷ s) = elim (Bool-cases (leb 32 c)) [
  | inl e ↦ rw e (leb→le 32 c e, All-filter_test s)
  | inr e ↦ rw e (All-filter_test s)
]

text_or_none-eq : (s r : Text) → text_or_none s ≡ some r → (s ≡ r) × (is_empty r ≡ false)
text_or_none-eq [] r h = cc
text_or_none-eq (c ∷ s) r h = ground arith

strip_clean :
    (label r : Text)
    → length label ≤ max_label_length
    → text_or_none (strip (filter (λ c. leb 32 c) label)) ≡ some r
    → IsCleanLabel r
unfolding strip
strip_clean label r fits h =
    let s = filter (λ (c : ℕ). leb 32 c) label in
    let l = lstrip is_space s in
    let (e, nonempty) = text_or_none-eq (rstrip is_space l) r h in
    rw (← e) (record {
      nonempty = rw e nonempty;
      short = omega (
        arith,
        length-rstrip-le is_space l,
        length-lstrip-le is_space s,
        length-filter-le (λ (c : ℕ). leb 32 c) label,
      );
      printable =
          All-rstrip (λ (c : ℕ). 32 ≤ c) is_space l
            (All-lstrip (λ (c : ℕ). 32 ≤ c) is_space s (All-filter_test label));
      starts = rstrip-StartsOutside is_space l (lstrip-StartsOutside is_space s);
      ends = rstrip-EndsOutside is_space l;
    })

-- A label that the validator returns is not empty, at most 500 characters long, free of control
-- characters, and neither begins nor ends with white space.
validate_label-IsCleanLabel :
    (label r : Text) → validate_label (some label) ≡ ok (some r) → IsCleanLabel r
unfolding validate_label
validate_label-IsCleanLabel label r h = strip_clean label r (ground arith) (ground arith)
