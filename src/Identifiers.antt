-- ===== src/Identifiers.antt =====
-- `parse_infohash`, `generate_link_hash` and `parse_source_identifier` of app/utils.py. The SHA-1 digest
-- in hexadecimal is the argument `sha1`.
use all_debrid_proxy.Base.{
  Option, none, some, [], ◌∷◌, ◌==◌, if◌then◌else◌, Text, codes, strip, take, ok, err,
}
use all_debrid_proxy.Base.Unicode.{Unicode, fold_case}
use all_debrid_proxy.Constants.{SourceType}
use all_debrid_proxy.Validation.Ids.{is_hex, is_base32, repeat, validate_infohash}

-- A literal at the front, under `re.IGNORECASE`: what follows it.
unfoldable pub literal_ignoring_case : Text → Text → Option Text
unfolding fold_case
literal_ignoring_case [] s = some s
literal_ignoring_case (d ∷ p) [] = none
literal_ignoring_case (d ∷ p) (c ∷ s) = if fold_case c == d then literal_ignoring_case p s else none

-- `([0-9A-Fa-f]{40}|[A-Z2-7]{32})` at the front
unfoldable pub hash_at : Text → Option Text
unfolding repeat is_hex is_base32
hash_at s = elim (repeat is_hex 40 s) [
  | some _ ↦ some (take 40 s)
  | none ↦ elim (repeat is_base32 32 s) [ some _ ↦ some (take 32 s) | none ↦ none ]
]

abbrev pub hash_after : Option Text → Option Text
unfolding hash_at
hash_after none = none
hash_after (some s) = hash_at s

abbrev pub or_else : Option Text → Option Text → Option Text
or_else none later = later
or_else (some t) later = some t

-- `re.search(Patterns.MAGNET_BTIH, magnet, re.IGNORECASE)`
unfoldable pub search_btih : Text → Option Text
unfolding literal_ignoring_case hash_at
search_btih [] = none
search_btih (c ∷ s) =
    or_else (hash_after (literal_ignoring_case (codes "btih:") (c ∷ s))) (search_btih s)

unfoldable pub parse_infohash : Unicode → Text → Option Text
unfolding search_btih validate_infohash
parse_infohash U magnet = elim (search_btih magnet) [
  | none ↦ none
  | some hash ↦ elim (validate_infohash U (Unicode.lower U hash)) [ ok h ↦ some h | err _ ↦ none ]
]

unfoldable pub generate_link_hash : (Text → Text) → Text → Text
unfolding strip
generate_link_hash sha1 url = sha1 (strip url)

-- The `ValueError`s are `none`.
unfoldable pub parse_source_identifier : Unicode → (Text → Text) → Text → SourceType → Option Text
unfolding parse_infohash generate_link_hash
parse_source_identifier U sha1 source SourceType.magnet = elim (parse_infohash U source) [
  | none ↦ none
  | some [] ↦ none
  | some (c ∷ h) ↦ some (c ∷ h)
]
parse_source_identifier U sha1 source SourceType.link = some (generate_link_hash sha1 source)
parse_source_identifier U sha1 source SourceType.upload = none
