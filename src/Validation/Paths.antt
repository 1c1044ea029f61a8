-- ===== src/Validation/Paths.antt =====
-- `validate_file_path` of app/validation.py. `os.path.realpath` asks the file system, so it is an
-- argument, which answers `none` where it raises.
pub mod Laws
use all_debrid_proxy.Base.{
  ℕ, ◌++◌, Bool, true, false, not, ◌&&◌, ◌||◌, Option, none, some, List, [], ◌∷◌, ltb, ◌==◌,
  if◌then◌else◌, Text, is_empty, has_char, starts_with, text_eq, length, Result, ok, err, ◌>>=◌,
  ◌>>◌, raise_if,
}
use all_debrid_proxy.Constants.{max_path_length}
use all_debrid_proxy.Validation.Invalid
use all_debrid_proxy.Validation.Invalid.{Invalid, Validated}

-- `s.endswith("/")`
abbrev pub ends_with_slash : Text → Bool
ends_with_slash [] = false
ends_with_slash (c ∷ []) = c == b'/'
ends_with_slash (c ∷ d ∷ s) = ends_with_slash (d ∷ s)

-- `os.path.join` of two parts, on POSIX
unfoldable pub path_join : Text → Text → Text
unfolding starts_with
path_join a b =
    if starts_with b (b'/' ∷ [])
    then b
    else if is_empty a || ends_with_slash a
    then a ++ b
    else a ++ (b'/' ∷ b)

abbrev pub or_unresolved : Option Text → Validated Text
or_unresolved none = err Invalid.path_unresolved
or_unresolved (some p) = ok p

-- The test that the resolved path lies in the resolved base directory.
unfoldable pub check_containment : Text → Text → Validated Text
unfolding text_eq starts_with
check_containment abs_path abs_base = do
  raise_if (not (text_eq abs_path abs_base) && not (starts_with abs_path (abs_base ++ (b'/' ∷ []))))
      Invalid.path_traversal
  ok abs_path

unfoldable pub validate_file_path : (Text → Option Text) → Text → Text → Validated Text
validate_file_path realpath file_path base_dir = do
  raise_if (is_empty file_path) Invalid.path_required
  raise_if (has_char 0 file_path) Invalid.path_null
  raise_if (ltb max_path_length (length file_path)) Invalid.path_too_long
  abs_path ← or_unresolved (realpath (path_join base_dir file_path))
  abs_base ← or_unresolved (realpath base_dir)
  check_containment abs_path abs_base
