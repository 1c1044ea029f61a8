-- ===== src/Validation/Sources.antt =====
-- `validate_magnet_link`, `validate_url`, `validate_source`, `validate_sources` and
-- `validate_torrent_file_data` of app/validation.py. The arguments of type `str` are texts, so the
-- `isinstance` tests pass.
pub mod Laws
use all_debrid_proxy.Base.{
  ℕ, ◌+◌, Bool, true, false, not, ◌&&◌, ◌||◌, Option, none, some, List, [], ◌∷◌, map, ltb, ◌==◌,
  if◌then◌else◌, Text, codes, is_empty, has_char, starts_with, contains_text, strip, split, length,
  filter, Result, ok, err, ◌>>=◌, ◌>>◌, raise_if,
}
use all_debrid_proxy.Base.Unicode.{Unicode}
use all_debrid_proxy.Constants
use all_debrid_proxy.Constants.{
  SourceType, max_magnet_length, max_url_length, max_torrent_file_size,
}
use all_debrid_proxy.Constants.{max_sources_per_submission}
use all_debrid_proxy.Validation.Invalid
use all_debrid_proxy.Validation.Invalid.{Invalid, InvalidSources, Validated}

unfoldable pub validate_magnet_link : Unicode → Text → Validated Text
unfolding starts_with contains_text
validate_magnet_link U magnet = do
  raise_if (is_empty magnet) Invalid.magnet_required
  raise_if (ltb max_magnet_length (length magnet)) Invalid.magnet_too_long
  raise_if (not (starts_with magnet (codes "magnet:"))) Invalid.magnet_format
  raise_if (not (contains_text (codes "xt=urn:btih:") (Unicode.lower U magnet)))
      Invalid.magnet_no_hash
  ok magnet

-- `url.startswith(('http://', 'https://'))`
abbrev pub has_http_scheme : Text → Bool
unfolding starts_with
has_http_scheme url = starts_with url (codes "http://") || starts_with url (codes "https://")

unfoldable pub validate_url : Text → Validated Text
unfolding starts_with
validate_url url = do
  raise_if (is_empty url) Invalid.url_required
  raise_if (not (has_http_scheme url)) Invalid.url_scheme
  raise_if (ltb max_url_length (length url)) Invalid.url_too_long
  raise_if (has_char 13 url || has_char 10 url || has_char 0 url) Invalid.url_characters
  ok url

abbrev with_type : SourceType → Validated Text → Validated (Text × SourceType)
with_type t r = r >>= λ s. ok (s, t)

-- The tests after the text has been stripped.
unfoldable pub classify_source : Unicode → Text → Validated (Text × SourceType)
unfolding validate_magnet_link validate_url
classify_source U source =
    if starts_with source (codes "magnet:")
    then with_type SourceType.magnet (validate_magnet_link U source)
    else if has_http_scheme source
    then with_type SourceType.link (validate_url source)
    else err Invalid.source_kind

unfoldable pub validate_source : Unicode → Text → Validated (Text × SourceType)
unfolding classify_source strip
validate_source U source = do
  raise_if (is_empty source) Invalid.source_required
  classify_source U (strip source)

-- `validated_sources` and `errors`, the latter with the line numbers.
pub record Checked : Type 0 where
  pub sources : List (Text × SourceType)
  pub errors : List (ℕ × Invalid)

-- The outcome of one line, in front of those of the later lines.
abbrev pub add_result : ℕ → Validated (Text × SourceType) → Checked → Checked
add_result i (ok v) later = record later { sources = v ∷ later.sources }
add_result i (err e) later = record later { errors = (i, e) ∷ later.errors }

-- The loop over the numbered lines.
unfoldable pub check_lines : Unicode → ℕ → List Text → Checked
check_lines U i [] = record { sources = []; errors = [] }
check_lines U i (line ∷ rest) = add_result i (validate_source U line) (check_lines U (i + 1) rest)

-- `[line.strip() for line in sources.split('\n') if line.strip()]`
unfoldable pub source_lines : Text → List Text
unfolding strip split
source_lines sources = filter (λ line. not (is_empty line)) (map strip (split 10 sources))

abbrev pub no_lines : List Text → Bool
no_lines [] = true
no_lines (l ∷ ls) = false

abbrev pub all_or_errors :
    List (Text × SourceType) → List (ℕ × Invalid) → Result InvalidSources (List (Text × SourceType))
all_or_errors sources [] = ok sources
all_or_errors sources (e ∷ es) = err (InvalidSources.lines (e ∷ es))

unfoldable pub validate_sources : Unicode → Text → Result InvalidSources (List (Text × SourceType))
unfolding source_lines check_lines
validate_sources U sources = do
  raise_if (is_empty sources) (InvalidSources.whole Invalid.sources_required)
  let lines = source_lines sources
  raise_if (no_lines lines) (InvalidSources.whole Invalid.sources_required)
  raise_if (ltb max_sources_per_submission (length lines))
      (InvalidSources.whole Invalid.sources_too_many)
  let checked = check_lines U 1 lines
  all_or_errors checked.sources checked.errors

-- `filename.lower().endswith('.torrent')`
unfoldable pub ends_with : Text → Text → Bool
unfolding starts_with
ends_with [] p = is_empty p
ends_with (c ∷ s) p = (length p == length (c ∷ s) && starts_with (c ∷ s) p) || ends_with s p

-- `torf` is the parser, if the library is installed. It answers `none` where it raises, and else the
-- infohash that it computed, which may be empty.
unfoldable pub validate_torrent_file_data :
    Unicode → Option (Text → Option Text) → Text → Text → Validated (Unit {0})
unfolding ends_with
validate_torrent_file_data U torf file_data filename = do
  raise_if (is_empty file_data) Invalid.torrent_empty
  raise_if (ltb max_torrent_file_size (length file_data)) Invalid.torrent_too_large
  raise_if (not (ends_with (Unicode.lower U filename) (codes ".torrent"))) Invalid.torrent_extension
  raise_if (not (starts_with file_data (codes "d"))) Invalid.torrent_not_bencoded
  elim torf [
    | none ↦ err Invalid.torrent_no_parser
    | some read_stream ↦ elim (read_stream file_data) [
      | none ↦ err Invalid.torrent_unreadable
      | some infohash ↦ raise_if (is_empty infohash) Invalid.torrent_no_info
    ]
  ]
