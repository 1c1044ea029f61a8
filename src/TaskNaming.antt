-- ===== src/TaskNaming.antt =====
-- app/task_naming.py. `unquote_plus` and the path that `urlparse` finds are fields of `UrlLib`, and
-- `path` is `none` where `urlparse` raises; `\w` is the field `is_word` of `Unicode`.
pub mod Laws
use all_debrid_proxy.Base.{
  ℕ, zero, suc, ◌+◌, Bool, true, false, not, ◌&&◌, ◌||◌, Option, none, some, List, [], ◌∷◌, ◌++◌,
  map, ltb, leb, ◌==◌, if◌then◌else◌, Text, codes, is_empty, has_char, starts_with, is_space,
  lstrip, rstrip, length, take, filter, all, any,
}
use all_debrid_proxy.Base.Unicode.{Unicode, is_upper_ascii, is_lower_ascii, fold_case}
use all_debrid_proxy.Constants
use all_debrid_proxy.Constants.{SourceType}
use all_debrid_proxy.Validation.Ids.{is_hex, matches_uuid}

pub record UrlLib : Type 0 where
  pub unquote_plus : Text → Text
  pub path : Text → Option Text

abbrev pub max_task_name_length : ℕ
max_task_name_length = 120

-- `[/\\]`
abbrev pub is_path_sep : ℕ → Bool
is_path_sep c = c == b'/' || c == 92

-- ` ._-`
abbrev pub is_edge : ℕ → Bool
is_edge c = c == 32 || c == b'.' || c == b'_' || c == b'-'

-- `[\s._\-]`
unfoldable pub is_sep : ℕ → Bool
unfolding is_space
is_sep c = is_space c || c == b'.' || c == b'_' || c == b'-'

-- What `[^\w\s.\-_()\[\]]` does not match
unfoldable pub is_allowed : Unicode → ℕ → Bool
unfolding is_space
is_allowed U c =
    Unicode.is_word U c
    || is_space c
    || c == b'.'
    || c == b'-'
    || c == b'_'
    || c == 40
    || c == 41
    || c == 91
    || c == 93

-- `re.split(r"[/\\]", s)[-1]`
unfoldable pub last_component : Text → Text
last_component [] = []
last_component (c ∷ s) = if any is_path_sep (c ∷ s) then last_component s else c ∷ s

-- `^[A-Za-z]:[/\\]|^/`
abbrev pub is_absolute : Text → Bool
is_absolute [] = false
is_absolute (c ∷ []) = c == b'/'
is_absolute (c ∷ d ∷ []) = c == b'/'
is_absolute (c ∷ d ∷ e ∷ s) =
    ((is_upper_ascii c || is_lower_ascii c) && d == b':' && is_path_sep e) || c == b'/'

unfoldable pub strip_path_prefix : Text → Text
unfolding last_component rstrip
strip_path_prefix name = if is_absolute name then last_component (rstrip is_path_sep name) else name

-- The separators read so far: none, one, or more.
pub data Pending : Type 0 where
  nothing : Pending
  one : ℕ → Pending
  many : Pending

abbrev pub flush : Pending → Text → Text
flush Pending.nothing s = s
flush (Pending.one c) s = c ∷ s
flush Pending.many s = b'.' ∷ s

abbrev pub add_sep : Pending → ℕ → Pending
add_sep Pending.nothing c = Pending.one c
add_sep (Pending.one d) c = Pending.many
add_sep Pending.many c = Pending.many

-- `_MULTI_SEP.sub(".", name)`: runs of two or more separators become one dot
unfoldable pub collapse : Pending → Text → Text
unfolding is_sep
collapse p [] = flush p []
collapse p (c ∷ s) = elim (is_sep c) [
  | true ↦ collapse (add_sep p c) s
  | false ↦ flush p (c ∷ collapse Pending.nothing s)
]

-- `name.strip(" ._-")`
unfoldable pub strip_edges : Text → Text
unfolding lstrip rstrip
strip_edges s = rstrip is_edge (lstrip is_edge s)

-- Steps 1 to 5 of `_normalize`.
unfoldable pub clean : Unicode → Text → Text
unfolding strip_path_prefix is_allowed collapse strip_edges
clean U name = strip_edges (
    collapse Pending.nothing (
      filter (is_allowed U)
        (map (λ (c : ℕ). if is_path_sep c then 32 else c) (strip_path_prefix name))))

-- Step 6.
unfoldable pub cut : Text → Text
unfolding rstrip
cut name =
    if ltb max_task_name_length (length name)
    then rstrip is_edge (take max_task_name_length name)
    else name

unfoldable pub normalize : Unicode → Text → Text
unfolding clean cut
normalize U name = if is_empty name then [] else cut (clean U name)

-- `[^&]+` at the front: what it matches, if anything
unfoldable pub until_ampersand : Text → Text
until_ampersand [] = []
until_ampersand (c ∷ s) = if c == b'&' then [] else c ∷ until_ampersand s

-- `[?&]dn=([^&]+)` at the front, with `re.IGNORECASE`
unfoldable pub dn_at : Text → Option Text
unfolding until_ampersand fold_case
dn_at (a ∷ d ∷ n ∷ e ∷ s) =
    if (a == b'?' || a == b'&')
      && fold_case d == b'd'
      && fold_case n == b'n'
      && e == b'='
      && not (is_empty (until_ampersand s))
    then some (until_ampersand s)
    else none
dn_at _ = none

abbrev pub or_later : Option Text → Option Text → Option Text
or_later none later = later
or_later (some t) later = some t

-- `re.search`, the leftmost match
unfoldable pub search_dn : Text → Option Text
unfolding dn_at
search_dn [] = none
search_dn (c ∷ s) = or_later (dn_at (c ∷ s)) (search_dn s)

abbrev pub map_text : (Text → Text) → Option Text → Option Text
map_text f none = none
map_text f (some t) = some (f t)

unfoldable pub extract_magnet_dn : UrlLib → Text → Option Text
unfolding search_dn
extract_magnet_dn L magnet = map_text L.unquote_plus (search_dn magnet)

-- `path.rstrip("/").rsplit("/", 1)[-1]`
unfoldable pub last_url_part : Text → Text
last_url_part [] = []
last_url_part (c ∷ s) = if has_char b'/' (c ∷ s) then last_url_part s else c ∷ s

abbrev pub with_dot : Text → Option Text
with_dot decoded = if not (is_empty decoded) && has_char b'.' decoded then some decoded else none

unfoldable pub extract_url_filename : UrlLib → Text → Option Text
unfolding last_url_part rstrip
extract_url_filename L url = elim (L.path url) [
  | none ↦ none
  | some path ↦
      if is_empty path
      then none
      else with_dot (L.unquote_plus (last_url_part (rstrip (λ c. c == b'/') path)))
]

-- `re.sub(r"\.[^.]+$", "", s)`: the extension goes
unfoldable pub strip_extension : Text → Text
strip_extension [] = []
strip_extension (c ∷ s) =
    if c == b'.' && not (is_empty s) && not (has_char b'.' s) then [] else c ∷ strip_extension s

-- `$` also stands before a last line break.
unfoldable pub without_line_break : Text → Text
without_line_break [] = []
without_line_break (c ∷ []) = if c == 10 then [] else c ∷ []
without_line_break (c ∷ d ∷ s) = c ∷ without_line_break (d ∷ s)

-- `^[0-9a-f]{32,}$`
unfoldable pub looks_like_hash : Text → Bool
unfolding is_hex without_line_break
looks_like_hash s = let t = without_line_break s in leb 32 (length t) && all is_hex t

pub record Best : Type 0 where
  pub best : Option Text
  pub best_len : ℕ

abbrev pub is_candidate : Text → Bool
unfolding strip_extension looks_like_hash matches_uuid
is_candidate basename =
    ltb 3 (length basename)
    && not (looks_like_hash (strip_extension basename))
    && not (matches_uuid (strip_extension basename))

unfoldable pub better : Text → Best → Best
unfolding last_component rstrip strip_extension looks_like_hash matches_uuid
better raw b =
    let basename = last_component (rstrip is_path_sep raw) in
    if is_candidate basename && ltb b.best_len (length basename)
    then record { best = some basename; best_len = length basename }
    else b

unfoldable pub best_filename : List Text → Best → Best
unfolding better
best_filename [] b = b
best_filename (raw ∷ rest) b = best_filename rest (better raw b)

-- Appends a candidate that is there and not empty.
abbrev pub offer : Option Text → List Text → List Text
offer (some (c ∷ s)) later = (c ∷ s) ∷ later
offer _ later = later

abbrev pub from_source : UrlLib → SourceType → Text → Option Text
unfolding extract_magnet_dn extract_url_filename
from_source L SourceType.magnet source = extract_magnet_dn L source
from_source L SourceType.link source = extract_url_filename L source
from_source L SourceType.upload source = none

unfoldable pub first_name : Unicode → List Text → Option Text
unfolding normalize
first_name U [] = none
first_name U (raw ∷ rest) =
    if is_empty (normalize U raw) then first_name U rest else some (normalize U raw)

-- `task_id.replace("-", "")[:8]`
abbrev pub short_id : Text → Text
short_id task_id = take 8 (filter (λ c. not (c == b'-')) task_id)

abbrev pub fallback : Option Text → Text
fallback (some (c ∷ s)) = codes "Task-" ++ short_id (c ∷ s)
fallback _ = codes "Unnamed-Task"

abbrev pub name_or_fallback : Option Text → Option Text → Text
name_or_fallback (some name) task_id = name
name_or_fallback none task_id = fallback task_id

-- What `generate_task_name` is given beside the source.
pub record Metadata : Type 0 where
  pub label : Option Text
  pub torrent_name : Option Text
  pub filenames : List Text
  pub task_id : Option Text

-- The candidates in the order of their priority.
unfoldable pub gather_candidates : UrlLib → Text → SourceType → Metadata → List Text
unfolding best_filename extract_magnet_dn extract_url_filename
gather_candidates L source source_type m = offer m.label (
    offer m.torrent_name (
      offer (from_source L source_type source)
        (offer (best_filename m.filenames (record { best = none; best_len = 0 })).best [])))

unfoldable pub generate_task_name : Unicode → UrlLib → Text → SourceType → Metadata → Text
unfolding first_name gather_candidates
generate_task_name U L source source_type m =
    name_or_fallback (first_name U (gather_candidates L source source_type m)) m.task_id
