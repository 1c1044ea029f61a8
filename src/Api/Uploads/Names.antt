-- ===== src/Api/Uploads/Names.antt =====
-- The name under which `upload_file_task` of app/api.py stores a file. `Path` is pathlib's on POSIX.
use all_debrid_proxy.Base.{
  ℕ, Bool, true, false, not, ◌&&◌, ◌||◌, Option, none, some, List, [], ◌∷◌, ◌++◌, map, ◌==◌,
  if◌then◌else◌, Text, codes, is_empty, text_eq, has_char, starts_with, split, lstrip, rstrip, take,
  filter,
}
use all_debrid_proxy.Base.Unicode.{Unicode}
use all_debrid_proxy.Base.Decimal.{decimal}

-- `Path(s).name`: the last part that is neither empty nor a dot.
abbrev pub last_part : List Text → Text
unfolding text_eq
last_part [] = []
last_part (p ∷ ps) =
    let later = last_part ps in
    if not (is_empty later) then later else if text_eq p (codes ".") then [] else p

unfoldable pub path_name : Text → Text
unfolding split text_eq
path_name s = last_part (split b'/' s)

-- The parts before and from the last dot that is neither the first nor the last character; the first
-- argument tells that a character stands before.
unfoldable pub split_suffix : Bool → Text → Option (Text × Text)
split_suffix inside [] = none
split_suffix inside (c ∷ s) = elim (split_suffix true s) [
  | some (stem, suffix) ↦ some (c ∷ stem, suffix)
  | none ↦
      if inside && (c == b'.') && not (is_empty s) && not (has_char b'.' s)
      then some ([], c ∷ s)
      else none
]

-- `Path(s).stem` and `Path(s).suffix`
unfoldable pub stem_and_suffix : Text → Text × Text
unfolding path_name split_suffix
stem_and_suffix s = elim (split_suffix false (path_name s)) [
  | some p ↦ p
  | none ↦ (path_name s, [])
]

-- `re.sub(r'[^\w\-]', '_', s)`
abbrev pub only_word : Unicode → ℕ → ℕ
only_word U c = if U.is_word c || (c == b'-') then c else b'_'

-- `strip('._-')`
abbrev pub is_trimmed : ℕ → Bool
is_trimmed c = (c == b'.') || (c == b'_') || (c == b'-')

unfoldable pub safe_base : Unicode → Text → Text
safe_base U file_base =
    take 200 (rstrip is_trimmed (lstrip is_trimmed (map (only_word U) file_base)))

-- `safe_ext = '.' + safe_ext` if there is one without a dot
unfoldable pub with_dot : Text → Text
unfolding starts_with
with_dot s = if not (is_empty s) && not (starts_with s (codes ".")) then b'.' ∷ s else s

unfoldable pub safe_ext : Unicode → Text → Text
unfolding with_dot
safe_ext U file_ext = with_dot (take 50 (filter (λ c. U.is_word c || (c == b'.')) file_ext))

-- The name with the time in it serves where no base is left; a base that is left is no dot.
unfoldable pub safe_name : Unicode → Text → ℕ → Text
unfolding stem_and_suffix safe_base safe_ext decimal
safe_name U original now =
    let (stem, suffix) = stem_and_suffix original in
    let base = safe_base U stem in
    let ext = safe_ext U suffix in
    if is_empty base then codes "uploaded_file_" ++ decimal now ++ ext else base ++ ext
