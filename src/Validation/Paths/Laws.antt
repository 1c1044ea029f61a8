-- ===== src/Validation/Paths/Laws.antt =====
-- The paths that `validate_file_path` lets through (app/validation.py).
use mathlib.Core.List.{append_assoc, append-nil}
use all_debrid_proxy.Base.{
  ◌≡◌, refl, sym, ap, ◌∙◌, ◌++◌, false, not, ◌&&◌, Option, none, some, List, [], ◌∷◌, arith, Text,
  split, starts_with, text_eq, text_eq→eq, Bool-cases, inl, inr, ok, ◌>>=◌,
}
use all_debrid_proxy.Base.Splitting.{split-append, starts_with-append}
use all_debrid_proxy.Validation.Paths.{
  path_join, or_unresolved, check_containment, validate_file_path,
}

-- The components of one path begin with those of another.
abbrev pub IsBelow : Text → Text → Type 0
IsBelow base path = (rest : List Text) × (split b'/' path ≡ split b'/' base ++ rest)

IsBelow-of_tests :
    (path base : Text)
    → (not (text_eq path base) && not (starts_with path (base ++ (b'/' ∷ [])))) ≡ false
    → IsBelow base path
IsBelow-of_tests path base h = elim (Bool-cases (text_eq path base)) [
  | inl e ↦ ([], ap (split b'/') (text_eq→eq path base e) ∙ sym (append-nil (split b'/' base)))
  | inr e ↦
      let (t, p) = starts_with-append path (base ++ (b'/' ∷ [])) (ground arith) in
      (
        split b'/' t,
        ap (split b'/') (p ∙ append_assoc base (b'/' ∷ []) t) ∙ split-append b'/' base t,
      )
]

check_containment-IsBelow : (a b r : Text) → check_containment a b ≡ ok r → (a ≡ r) × IsBelow b a
check_containment-IsBelow a b r h = (
  unfold check_containment in ground arith,
  IsBelow-of_tests a b (unfold check_containment in ground arith),
)

resolved-IsBelow :
    (pa pb : Option Text) (r : Text)
    → (or_unresolved pa >>= λ a. or_unresolved pb >>= λ b. check_containment a b) ≡ ok r
    → (base : Text) × (pb ≡ some base) × (pa ≡ some r) × IsBelow base r
resolved-IsBelow none pb r h = cc
resolved-IsBelow (some a) none r h = cc
resolved-IsBelow (some a) (some b) r h =
    let (e, below) = check_containment-IsBelow a b r h in (b, refl, ap some e, rw e at below)

-- Whatever the file system resolves, an accepted path is the resolved one, and its components begin
-- with all the components of the resolved base directory: a sibling such as `/srv/storage2` for the
-- base `/srv/storage` cannot pass.
pub validate_file_path-IsBelow :
    (realpath : Text → Option Text) (file_path base_dir r : Text)
    → validate_file_path realpath file_path base_dir ≡ ok r
    → (base : Text) × (realpath base_dir ≡ some base)
      × (realpath (path_join base_dir file_path) ≡ some r)
      × IsBelow base r
unfolding validate_file_path
validate_file_path-IsBelow realpath file_path base_dir r h =
    resolved-IsBelow (realpath (path_join base_dir file_path)) (realpath base_dir) r (ground arith)
