-- ===== src/Validation/Invalid.antt =====
-- `ValidationError`: one constructor for each message that app/validation.py raises.
use all_debrid_proxy.Base.{ℕ, List, Result}

pub data Invalid : Type 0 where
  task_id_required task_id_format : Invalid
  magnet_required magnet_too_long magnet_format magnet_no_hash : Invalid
  path_required path_null path_too_long path_unresolved path_traversal : Invalid
  name_required name_too_long name_separator name_null name_control name_reserved : Invalid
  label_too_long : Invalid
  infohash_required infohash_hex infohash_base32 infohash_length : Invalid
  int_negative int_too_large : Invalid
  url_required url_scheme url_too_long url_characters : Invalid
  source_required source_kind : Invalid
  sources_required sources_too_many : Invalid
  torrent_empty torrent_too_large torrent_extension torrent_not_bencoded : Invalid
  torrent_no_parser torrent_no_info torrent_unreadable : Invalid

-- `validate_sources` reports the numbers of all bad lines at once.
pub data InvalidSources : Type 0 where
  whole : Invalid → InvalidSources
  lines : List (ℕ × Invalid) → InvalidSources

abbrev pub Validated {ℓ} : Type ℓ → Type ℓ
Validated A = Result Invalid A
