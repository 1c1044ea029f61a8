-- ===== src/Frontend/Share.antt =====
-- The file share of frontend/app.py: which files its pages list and serve. A path is the list of its parts, and
-- `Disk` is what pathlib tells of the file system: links are followed but by `is_symlink`, and `rglob` does
-- not go through linked directories. Headers and conditional requests are left out.
pub mod Below
use all_debrid_proxy.Base.{
  ℕ, ◌≡◌, Bool, true, false, not, ◌&&◌, ◌||◌, Option, none, some, List, [], ◌∷◌, ◌++◌,
  if◌then◌else◌, Text, codes, is_empty, text_eq, split, starts_with, filter, Result, ok, err, ◌>>=◌,
  ◌>>◌, raise_if,
}
use all_debrid_proxy.Validation.Ids.{matches_uuid}
use all_debrid_proxy.Validation.Sources.{ends_with}

abbrev pub FilePath : Type 0
FilePath = List Text

-- `p.is_relative_to(base)`, the base first
unfoldable pub is_below : FilePath → FilePath → Bool
unfolding text_eq
is_below [] p = true
is_below (b ∷ base) [] = false
is_below (b ∷ base) (q ∷ p) = text_eq b q && is_below base p

pub record Disk : Type 0 where
  pub resolve : FilePath → FilePath
  pub exists : FilePath → Bool
  pub is_file : FilePath → Bool
  pub is_symlink : FilePath → Bool
  -- what is below a directory, in order
  pub rglob : FilePath → List FilePath

-- What a handler aborts with, by its status.
pub data Refused : Type 0 where
  bad_request : Refused
  missing : Refused
  still_downloading : Refused

-- The parts of a text between slashes, of which pathlib drops the empty ones and the dots.
abbrev pub parts_of : Text → FilePath
unfolding split text_eq
parts_of s = filter (λ part. not (is_empty part) && not (text_eq part (codes "."))) (split b'/' s)

-- `base / relpath`, where an absolute path replaces the base
unfoldable pub joined_to : FilePath → Text → FilePath
unfolding split text_eq starts_with
joined_to base relpath =
    if starts_with relpath (codes "/") then parts_of relpath else base ++ parts_of relpath

unfoldable pub safe_task_base : Disk → FilePath → Text → Result Refused FilePath
unfolding matches_uuid is_below
safe_task_base disk storage_root task_id = do
  raise_if (not (matches_uuid task_id)) Refused.bad_request
  let root = disk.resolve storage_root
  let base = disk.resolve (root ++ (task_id ∷ codes "files" ∷ []))
  raise_if (not (is_below root base)) Refused.bad_request
  raise_if (not (disk.exists base)) Refused.missing
  ok base

-- `_safe_resolve_relpath`
unfoldable pub safe_resolve_relpath : Disk → FilePath → Text → Result Refused FilePath
unfolding is_below joined_to
safe_resolve_relpath disk base relpath = do
  let full = disk.resolve (joined_to base relpath)
  raise_if (not (is_below base full)) Refused.bad_request
  raise_if (not (disk.exists full) || not (disk.is_file full)) Refused.missing
  ok full

-- `str(filepath) + ".aria2"`
abbrev pub control_file : FilePath → FilePath
control_file [] = []
control_file (name ∷ []) = (name ++ codes ".aria2") ∷ []
control_file (part ∷ next ∷ rest) = part ∷ control_file (next ∷ rest)

-- `_is_still_downloading`
abbrev pub is_still_downloading : Disk → FilePath → Bool
is_still_downloading disk filepath = disk.exists (control_file filepath)

-- The file that `raw_file` and `stream_video` serve.
unfoldable pub served_file : Disk → FilePath → Text → Text → Result Refused FilePath
unfolding safe_task_base safe_resolve_relpath
served_file disk storage_root task_id relpath = do
  base ← safe_task_base disk storage_root task_id
  full ← safe_resolve_relpath disk base relpath
  raise_if (is_still_downloading disk full) Refused.still_downloading
  ok full

abbrev pub last_name : FilePath → Text
last_name [] = []
last_name (name ∷ []) = name
last_name (part ∷ next ∷ rest) = last_name (next ∷ rest)

-- `_should_include_file`
unfoldable pub should_include_file : FilePath → Bool
unfolding ends_with
should_include_file filepath = not (ends_with (last_name filepath) (codes ".aria2"))

-- The files that `list_folder` and `links_txt` list: no link that leaves the base, and no control file.
abbrev pub is_listed : Disk → FilePath → FilePath → Bool
unfolding is_below should_include_file
is_listed disk base p =
    not (disk.is_symlink p && not (is_below base (disk.resolve p)))
    && disk.is_file p
    && should_include_file p

unfoldable pub listed_files : Disk → FilePath → Text → Result Refused (List FilePath)
unfolding safe_task_base is_below should_include_file
listed_files disk storage_root task_id = do
  base ← safe_task_base disk storage_root task_id
  ok (filter (is_listed disk base) (disk.rglob base))
