-- ===== src/Tests/Provided.antt =====
-- The answers of the provider at concrete inputs.
use all_debrid_proxy.Base.{
  inr, ◌≡◌, get_elem?, refl, true, none, some, List, [], ◌∷◌, text_eq, codes, All,
}
use all_debrid_proxy.Base.Unicode.{ascii_only}
use all_debrid_proxy.Base.Decimal.{decimal}
use all_debrid_proxy.Constants.{Status, FileState, Mode, SourceType}
use all_debrid_proxy.Models.{TaskFile, file_of}
use all_debrid_proxy.World.{World}
use all_debrid_proxy.Provider.Values.{Json, Fields}
use all_debrid_proxy.Provider.{
  Http, Entry, normalize_items, get_magnet_status, unlock, download_link,
}
use all_debrid_proxy.Provider.Tree.{
  Leaf, Tree, Forest, all_sent, all_leaves, leaf_entry, normalize_items-all_sent,
}
use all_debrid_proxy.Provider.Links.{file_info, download_link-IsListed}
use all_debrid_proxy.Worker.Client.{FileInfo}
use all_debrid_proxy.Worker.Resolve.{name_or_default, list_found}
use all_debrid_proxy.Worker.Resolve.Listed.{IsListed, list_found-IsListed}
use all_debrid_proxy.Tests.Data.{task_id, a_task, a_file, first_id, a_world}

abbrev a_leaf : Leaf
a_leaf = record {
  first = b'a';
  rest = codes ".mkv";
  size = 100;
  link_first = b'l';
  link_rest = codes "1";
}

-- A directory with one file.
abbrev forest : Forest
forest =
    Forest.tree (Tree.directory (codes "d") (Forest.tree (Tree.file a_leaf) Forest.empty))
      Forest.empty

normalize_items-all_sent_example : normalize_items (all_sent forest) ≡ some (all_leaves forest)
normalize_items-all_sent_example = normalize_items-all_sent forest

-- A provider that answers every GET with the files and a direct link.
abbrev provider : Http
provider = record {
  get = λ path v. some (
      Json.object (
        Fields.field (codes "status") (Json.text (codes "success")) (
          Fields.field (codes "data")
            (Json.object (
              Fields.field (codes "files") (Json.array (all_sent forest))
                (Fields.field (codes "link") (Json.text (codes "http://x")) Fields.end)))
            Fields.end)));
  post = λ path values. none;
  repr = λ v. [];
}

answered : get_magnet_status provider (codes "m") ≡ some (leaf_entry a_leaf ∷ [])
unfolding get_magnet_status all_sent
answered = refl

abbrev listing : List FileInfo
listing = record { name = codes "a.mkv"; size = 100 } ∷ []

abbrev a_row : TaskFile
a_row = a_file first_id 0 FileState.selected

a_row-file_of : file_of task_id a_row ≡ true
unfolding text_eq
a_row-file_of = refl

a_row-IsListed : IsListed listing task_id a_row
unfolding decimal
a_row-IsListed = inr (record { name = codes "a.mkv"; size = 100 }, refl, refl, refl)

downloaded : download_link provider (codes "m") 0 ≡ some (Json.text (codes "http://x"))
unfolding download_link all_sent
downloaded = refl

download_link-IsListed_example :
    (e : Entry) × (fi : FileInfo) × (link : Json) × (get_elem? (leaf_entry a_leaf ∷ []) 0 ≡ some e)
    × (file_info e ≡ some fi)
    × (codes "a.mkv" ≡ name_or_default 0 fi.name)
    × (some 100 ≡ some fi.size)
    × (e.link ≡ some link)
    × (unlock provider link ≡ some (Json.text (codes "http://x")))
download_link-IsListed_example =
    download_link-IsListed provider task_id (codes "m") (leaf_entry a_leaf ∷ []) listing a_row
      (Json.text (codes "http://x")) answered refl a_row-file_of a_row-IsListed downloaded

abbrev listed_world : World
listed_world = a_world (a_task Mode.auto SourceType.magnet Status.resolving) (a_row ∷ [])

list_found-IsListed_example :
    All
      (IsListed listing task_id)
      (list_found ascii_only (λ n. b'f' ∷ []) task_id listing listed_world).db.files
list_found-IsListed_example =
    list_found-IsListed ascii_only (λ n. b'f' ∷ []) task_id listing listed_world
      (a_row-IsListed, tt)
