-- ===== src/Tests/Texts.antt =====
-- The validators and the naming of tasks at concrete inputs.
use all_debrid_proxy.Base.{
  ◌≤◌, ◌≡◌, ◌≢◌, refl, Option, none, some, [], ◌∷◌, ◌++◌, map, Text, codes, length, strip, split,
  ok,
}
use all_debrid_proxy.Base.Unicode.{ascii_only, to_lower}
use all_debrid_proxy.Constants.{SourceType}
use all_debrid_proxy.Validation.Names.{validate_file_name}
use all_debrid_proxy.Validation.Names.Laws.{validate_file_name-one_component}
use all_debrid_proxy.Validation.Ids.{validate_task_id}
use all_debrid_proxy.Validation.Ids.Laws.{validate_task_id-one_component}
use all_debrid_proxy.Validation.Sources.{validate_source}
use all_debrid_proxy.Validation.Sources.Laws.{IsSource, validate_source-IsSource}
use all_debrid_proxy.Validation.Paths.{check_containment, path_join, validate_file_path}
use all_debrid_proxy.Validation.Paths.Laws.{IsBelow, validate_file_path-IsBelow}
use all_debrid_proxy.TaskNaming.{UrlLib, Metadata, normalize}
use all_debrid_proxy.TaskNaming.Laws.{IsDisplayName, normalize-IsDisplayName}
use all_debrid_proxy.Tests.Data.{task_id, source}

id_accepted : validate_task_id ascii_only task_id ≡ ok task_id
unfolding validate_task_id
id_accepted = refl

validate_task_id-one_component_example :
    (task_id ≡ map to_lower task_id)
    × (36 ≤ length task_id)
    × (length task_id ≤ 37)
    × (split b'/' (codes "/srv" ++ (b'/' ∷ task_id)) ≡ split b'/' (codes "/srv") ++ (task_id ∷ []))
validate_task_id-one_component_example =
    validate_task_id-one_component ascii_only task_id task_id (codes "/srv") id_accepted

name_accepted : validate_file_name ascii_only (codes "a.mkv") ≡ ok (codes "a.mkv")
unfolding validate_file_name
name_accepted = refl

validate_file_name-one_component_example :
    (codes "a.mkv" ≡ codes "a.mkv")
    × (split b'/' (codes "/srv" ++ (b'/' ∷ codes "a.mkv"))
        ≡ split b'/' (codes "/srv") ++ (codes "a.mkv" ∷ []))
    × (codes "a.mkv" ≢ codes ".")
    × (codes "a.mkv" ≢ codes "..")
validate_file_name-one_component_example =
    validate_file_name-one_component ascii_only (codes "a.mkv") (codes "a.mkv") (codes "/srv")
      name_accepted

source_accepted :
    validate_source ascii_only (codes " http://h/a.mkv") ≡ ok (source, SourceType.link)
unfolding validate_source
source_accepted = refl

validate_source-IsSource_example :
    (source ≡ strip (codes " http://h/a.mkv")) × IsSource ascii_only source SourceType.link
validate_source-IsSource_example =
    validate_source-IsSource ascii_only (codes " http://h/a.mkv") source SourceType.link
      source_accepted

normalize-IsDisplayName_example :
    IsDisplayName ascii_only (normalize ascii_only (codes "/x/A_film.2020"))
normalize-IsDisplayName_example = normalize-IsDisplayName ascii_only (codes "/x/A_film.2020")

abbrev resolved : Text → Option Text
resolved s = some s

path_accepted : validate_file_path resolved (codes "a") (codes "/srv") ≡ ok (codes "/srv/a")
unfolding validate_file_path path_join check_containment
path_accepted = refl

validate_file_path-IsBelow_example :
    (base : Text) × (resolved (codes "/srv") ≡ some base)
    × (resolved (path_join (codes "/srv") (codes "a")) ≡ some (codes "/srv/a"))
    × IsBelow base (codes "/srv/a")
validate_file_path-IsBelow_example =
    validate_file_path-IsBelow resolved (codes "a") (codes "/srv") (codes "/srv/a") path_accepted

abbrev url_library : UrlLib
url_library = record { unquote_plus = λ s. s; path = λ s. some s }

abbrev metadata : Metadata
metadata = record {
  label = none;
  torrent_name = none;
  filenames = codes "A_film.mkv" ∷ [];
  task_id = none;
}
