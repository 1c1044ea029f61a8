-- ===== src/Frontend/Submit/Sources.antt =====
-- The sources of the form that `create_task` of frontend/app.py takes, and `torrent_to_magnet` of
-- app/utils.py. `Torf` is the torrent library: a parsed torrent has an infohash, which may be empty, and a
-- magnet link.
use all_debrid_proxy.Base.{
  Option, none, some, List, [], ◌∷◌, if◌then◌else◌, Text, is_empty, elem_of, ok, err,
}
use all_debrid_proxy.Base.Unicode.{Unicode}
use all_debrid_proxy.Validation.Sources.{source_lines, validate_torrent_file_data}

pub record Torf : Type 0 where
  pub read_stream : Option (Text → Option Text)
  pub magnet : Text → Text

-- `torrent_to_magnet`, which raises without the library, without a torrent and without an infohash.
unfoldable pub torrent_to_magnet : Torf → Text → Option Text
torrent_to_magnet torf torrent_data = elim torf.read_stream [
  | none ↦ none
  | some read_stream ↦ elim (read_stream torrent_data) [
    | none ↦ none
    | some [] ↦ none
    | some (c ∷ s) ↦ some (torf.magnet torrent_data)
  ]
]

-- A file of the form, whose reading may raise; a field without a file has no name.
pub record File : Type 0 where
  pub filename : Text
  pub file_data : Option Text

-- `if source: ... [line.strip() for line in source.split('\n') if line.strip()]`
unfoldable pub text_sources : Text → List Text
unfolding source_lines
text_sources [] = []
text_sources (c ∷ s) = source_lines (c ∷ s)

-- One file: its magnet link, or none where it is passed over or its processing raises.
unfoldable pub torrent_magnet : Unicode → Torf → File → Option Text
unfolding validate_torrent_file_data torrent_to_magnet
torrent_magnet U torf file = if is_empty file.filename then none else elim file.file_data [
  | none ↦ none
  | some bytes ↦ elim (validate_torrent_file_data U torf.read_stream bytes file.filename) [
    | err e ↦ none
    | ok u ↦ torrent_to_magnet torf bytes
  ]
]

unfoldable pub torrent_magnets : Unicode → Torf → List File → List Text
unfolding torrent_magnet
torrent_magnets U torf [] = []
torrent_magnets U torf (file ∷ files) =
    let rest = torrent_magnets U torf files in
    elim (torrent_magnet U torf file) [ none ↦ rest | some m ↦ m ∷ rest ]

-- The loop that drops a source whose lower-case form has been seen.
unfoldable pub unique_sources : Unicode → List Text → List Text → List Text
unfolding elem_of
unique_sources U seen [] = []
unique_sources U seen (source ∷ sources) =
    let skipped = unique_sources U seen sources in
    let kept = unique_sources U (U.lower source ∷ seen) sources in
    if elem_of (U.lower source) seen then skipped else source ∷ kept
