-- ===== src/Provider.antt =====
-- app/providers/alldebrid.py: the client of the debrid provider. `Http` is `requests`: what a GET answers
-- for a path and its one parameter, and a POST for a list of values, as parsed JSON, or `none` where the
-- call or the parsing raises. A method that raises answers `none`.
pub mod Values
pub mod Links
pub mod Tree
use all_debrid_proxy.Base.{
  ℕ, ◌+◌, Bool, true, false, not, Option, none, some, List, [], ◌∷◌, ◌++◌, map, if◌then◌else◌, ℤ,
  pos, negsuc, Text, codes, is_empty, text_eq, get_elem?,
}
use all_debrid_proxy.Base.Decimal.{decimal, int_of}
use all_debrid_proxy.Provider.Values.{Json, Items, Fields, get, truthy, or_json}

pub record Http : Type 0 where
  pub get : Text → Json → Option Json
  pub post : Text → List Text → Option Json
  -- `str` of a Boolean, a list or an object
  pub repr : Json → Text

abbrev pub then_raise {ℓ κ} : {A : Type ℓ} {B : Type κ} → Option A → (A → Option B) → Option B
then_raise none f = none
then_raise (some a) f = f a

abbrev pub is_success : Option Json → Bool
is_success (some (Json.text s)) = text_eq s (codes "success")
is_success _ = false

-- `data.get("data") or {}`, which the callers take for an object.
abbrev pub data_of : Option Json → Option Fields
data_of none = some Fields.end
data_of (some (Json.object fs)) = some fs
data_of (some v) = if truthy v then none else some Fields.end

-- `_ok`
unfoldable pub check_answer : Option Json → Option Fields
unfolding get truthy text_eq
check_answer (some (Json.object fs)) =
    if is_success (get (codes "status") fs) then data_of (get (codes "data") fs) else none
check_answer _ = none

-- `str(v)`
abbrev pub str_of : Http → Json → Text
unfolding decimal
str_of http (Json.text s) = s
str_of http (Json.number (pos n)) = decimal n
str_of http (Json.number (negsuc n)) = b'-' ∷ decimal (n + 1)
str_of http (Json.decimal x) = x.shown
str_of http v = http.repr v

-- `if mid is not None: ids.append(str(mid))`
abbrev pub add_id : Http → Option Json → List Text → List Text
add_id http none ids = ids
add_id http (some Json.null) ids = ids
add_id http (some v) ids = str_of http v ∷ ids

unfoldable pub ids_of : Http → Items → Option (List Text)
unfolding get
ids_of http Items.nil = some []
ids_of http (Items.cons m ms) =
    then_raise (ids_of http ms)
      λ ids. elim m [ Json.object fs ↦ some (add_id http (get (codes "id") fs) ids) | _ ↦ none ]

-- The loop over `data.get("magnets", [])`.
unfoldable pub ids_in : Http → Option Json → Option (List Text)
unfolding ids_of
ids_in http none = some []
ids_in http (some (Json.array xs)) = ids_of http xs
ids_in http (some (Json.object Fields.end)) = some []
ids_in http (some (Json.text [])) = some []
ids_in http _ = none

unfoldable pub upload_magnets : Http → List Text → Option (List Text)
unfolding check_answer ids_in get
upload_magnets http magnets =
    then_raise (check_answer (http.post (codes "/magnet/upload") magnets))
      λ answer. ids_in http (get (codes "magnets") answer)

-- `data.get("link") or data.get("download") or data.get("url")`
unfoldable pub direct_link : Fields → Option Json
unfolding get or_json
direct_link answer =
    or_json (get (codes "link") answer)
      (or_json (get (codes "download") answer) (get (codes "url") answer))

-- `if not direct: raise`
abbrev pub if_truthy : Option Json → Option Json
unfolding truthy
if_truthy none = none
if_truthy (some v) = if truthy v then some v else none

-- The last part of `download_link`, where the locked link is the value that the entry holds.
unfoldable pub unlock : Http → Json → Option Json
unfolding check_answer direct_link truthy
unlock http link =
    then_raise (check_answer (http.get (codes "/link/unlock") link))
      λ answer. if_truthy (direct_link answer)

unfoldable pub unlock_link : Http → Text → Option Json
unfolding unlock
unlock_link http link = unlock http (Json.text link)

-- `upload_links`
unfoldable pub upload_links : Http → List Text → Option (List Json)
unfolding unlock_link
upload_links http [] = some []
upload_links http (link ∷ links) =
    let rest = upload_links http links in
    then_raise (unlock_link http link) λ url. then_raise rest λ urls. some (url ∷ urls)

-- `infos = data.get("infos") or {}`, and of a list that is not empty its first member.
unfoldable pub infos_of : Option Json → Json
unfolding truthy
infos_of none = Json.object Fields.end
infos_of (some (Json.array (Items.cons v vs))) = v
infos_of (some v) = if truthy v then v else Json.object Fields.end

unfoldable pub get_link_info : Http → Text → Option Json
unfolding check_answer get infos_of
get_link_info http link =
    then_raise (check_answer (http.get (codes "/link/infos") (Json.text link)))
      λ answer. some (infos_of (get (codes "infos") answer))

-- An entry of the normalised list.
pub record Entry : Type 0 where
  pub name : Json
  pub size : ℤ
  pub link : Option Json

-- `int(size)`, or 0 where it raises.
abbrev pub int_or_zero : Json → ℤ
unfolding int_of
int_or_zero (Json.number n) = n
int_or_zero (Json.decimal x) = elim x.whole [ none ↦ pos 0 | some n ↦ n ]
int_or_zero (Json.boolean true) = pos 1
int_or_zero (Json.text s) = elim (int_of s) [ none ↦ pos 0 | some n ↦ n ]
int_or_zero _ = pos 0

abbrev pub or_value : Json → Option Json → Json
unfolding truthy
or_value default none = default
or_value default (some v) = if truthy v then v else default

-- The entry of one object.
unfoldable pub entry_of : Fields → Entry
unfolding get or_json truthy int_of
entry_of fs = record {
  name =
      or_value (Json.text []) (
        or_json (get (codes "n") fs) (or_json (get (codes "name") fs) (get (codes "filename") fs)));
  size = int_or_zero (
      or_value (Json.number (pos 0)) (
        or_json (get (codes "s") fs)
          (or_json (get (codes "size") fs) (get (codes "filesize") fs))));
  link =
      if_truthy
        (or_json (get (codes "l") fs) (or_json (get (codes "link") fs) (get (codes "url") fs)));
}

abbrev pub joined_with : Option (List Entry) → Option (List Entry) → Option (List Entry)
joined_with none later = none
joined_with (some es) none = none
joined_with (some es) (some later) = some (es ++ later)

-- What an object holds under `e`, if that is a list.
pub data Nested : Type 0 where
  flat : Nested
  nested : Option (List Entry) → Nested

abbrev pub flattened : Fields → Nested → Option (List Entry)
unfolding entry_of
flattened fs Nested.flat = some (entry_of fs ∷ [])
flattened fs (Nested.nested es) = es

-- `_normalize_items`; an item that is no object raises.
unfoldable mutual
  unfolding entry_of text_eq

  pub normalize_items : Items → Option (List Entry)
  normalize_items Items.nil = some []
  normalize_items (Items.cons v vs) = joined_with (normalize_item v) (normalize_items vs)

  pub normalize_item : Json → Option (List Entry)
  normalize_item (Json.object fs) = flattened fs (under_e fs)
  normalize_item _ = none

  pub under_e : Fields → Nested
  under_e Fields.end = Nested.flat
  under_e (Fields.field k v fs) =
      let later = under_e fs in
      let here = nested_list v in if text_eq k (codes "e") then here else later

  pub nested_list : Json → Nested
  nested_list (Json.array xs) = Nested.nested (normalize_items xs)
  nested_list _ = Nested.flat

-- `files_out.extend(...)` if the value is a list
abbrev pub listed_in : Option Json → Option (List Entry)
unfolding normalize_items
listed_in (some (Json.array xs)) = normalize_items xs
listed_in _ = some []

-- The part for `data.get("magnets")`.
abbrev pub in_magnet : Json → Option (List Entry)
unfolding get normalize_items
in_magnet (Json.object fs) =
    joined_with (listed_in (get (codes "files") fs)) (listed_in (get (codes "links") fs))
in_magnet _ = none

unfoldable pub in_magnets : Option Json → Option (List Entry)
unfolding get normalize_items
in_magnets (some (Json.object fs)) = in_magnet (Json.object fs)
in_magnets (some (Json.array (Items.cons m ms))) = in_magnet m
in_magnets _ = some []

-- `if not files_out and isinstance(...): files_out.extend(...)`
abbrev pub or_listed : Option Json → List Entry → Option (List Entry)
unfolding normalize_items
or_listed v [] = listed_in v
or_listed v (e ∷ es) = some (e ∷ es)

-- The `files` of the answer.
unfoldable pub get_magnet_status : Http → Text → Option (List Entry)
unfolding check_answer in_magnets get normalize_items
get_magnet_status http magnet_id =
    then_raise (check_answer (http.get (codes "/magnet/status") (Json.text magnet_id))) λ answer.
      then_raise (in_magnets (get (codes "magnets") answer)) λ found.
        then_raise (or_listed (get (codes "files") answer) found)
          λ found. or_listed (get (codes "links") answer) found

-- The locked link of the file with an index, or `none` where the checks raise.
abbrev pub locked_link : List Entry → ℕ → Option Json
locked_link files i = then_raise (get_elem? files i) λ e. e.link

unfoldable pub download_link : Http → Text → ℕ → Option Json
unfolding get_magnet_status unlock
download_link http magnet_id file_index =
    then_raise (get_magnet_status http magnet_id)
      λ files. then_raise (locked_link files file_index) λ link. unlock http link
