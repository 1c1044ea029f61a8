-- ===== src/Provider/Links.antt =====
-- The calls of app/providers/alldebrid.py against those of worker/worker.py that use their results: the
-- provider's entries as the worker lists them, and the link that a listed row is downloaded from.
use all_debrid_proxy.Base.{
  inl, inr, ℕ, zero, suc, ◌≡◌, refl, ap, sym, ◌∙◌, subst, true, Option, none, some, List, [], ◌∷◌,
  pos, ◌↔◌, Text, get_elem?,
}
use all_debrid_proxy.Models.{TaskFile, file_of}
use all_debrid_proxy.Worker.Client.{FileInfo}
use all_debrid_proxy.Worker.Resolve.{name_or_default}
use all_debrid_proxy.Worker.Resolve.Listed.{IsListed, IsNamed}
use all_debrid_proxy.Provider.Values.{Json}
use all_debrid_proxy.Provider.{
  Http, Entry, then_raise, unlock, get_magnet_status, locked_link, download_link,
}

then_raise-eq-some {ℓ κ} :
    {A : Type ℓ} {B : Type κ} (o : Option A) (k : A → Option B) {b : B}
    → then_raise o k ≡ some b
    → (a : A) × (o ≡ some a) × (k a ≡ some b)
then_raise-eq-some none k h = cc
then_raise-eq-some (some a) k h = (a, refl, h)

-- The provider lists files, the one at the index has a locked link, and unlocking that link gives the URL.
abbrev pub IsDownload : Http → Text → ℕ → Json → Type 0
IsDownload http magnet_id i url =
    (files : List Entry) × (e : Entry) × (link : Json) × (get_magnet_status http magnet_id
      ≡ some files)
    × (get_elem? files i ≡ some e)
    × (e.link ≡ some link)
    × (unlock http link ≡ some url)

-- `download_link` returns a URL exactly if the provider lists files, the file at the index has a locked
-- link, and unlocking this link gives the URL; in all other cases it raises.
download_link_lem :
    (http : Http) (magnet_id : Text) (i : ℕ) (url : Json)
    → (download_link http magnet_id i ≡ some url) ↔ IsDownload http magnet_id i url
unfolding download_link
download_link_lem http magnet_id i url = (there, back)
  where
    there : download_link http magnet_id i ≡ some url → IsDownload http magnet_id i url
    there h =
        let (files, status, h1) =
          then_raise-eq-some (get_magnet_status http magnet_id)
            (λ files. then_raise (locked_link files i) λ link. unlock http link) h in
        let (link, locked, h2) = then_raise-eq-some (locked_link files i) (unlock http) h1 in
        let (e, at_i, h3) = then_raise-eq-some (get_elem? files i) (λ (e : Entry). e.link) locked in
        (files, e, link, status, at_i, h3, h2)

    back : IsDownload http magnet_id i url → download_link http magnet_id i ≡ some url
    back (files, e, link, status, at_i, locked, unlocked) =
        rw (download_link, status, at_i, locked, unlocked) refl

-- An entry as the worker reads it; `none` for a name that is no text and for a negative size.
abbrev pub file_info : Entry → Option FileInfo
file_info e = elim e.name [
  | Json.text name ↦ elim e.size [ pos n ↦ some (record { name = name; size = n }) | _ ↦ none ]
  | _ ↦ none
]

abbrev pub file_infos : List Entry → Option (List FileInfo)
file_infos [] = some []
file_infos (e ∷ es) =
    let rest = file_infos es in
    then_raise (file_info e) λ fi. then_raise rest λ fis. some (fi ∷ fis)

some_inj {ℓ} : {A : Type ℓ} {a b : A} → some a ≡ some b → a ≡ b
some_inj h = cc

file_infos-cons :
    (x : Entry) (es : List Entry) (fis : List FileInfo)
    → file_infos (x ∷ es) ≡ some fis
    → (y : FileInfo) × (ys : List FileInfo) × (file_info x ≡ some y)
      × (file_infos es ≡ some ys)
      × (y ∷ ys ≡ fis)
file_infos-cons x es fis h =
    let (y, e1, h1) =
      then_raise-eq-some (file_info x) (λ fi. then_raise (file_infos es) λ fis. some (fi ∷ fis))
        h in
    let (ys, e2, h2) = then_raise-eq-some (file_infos es) (λ ys. some (y ∷ ys)) h1 in
    (y, ys, e1, e2, some_inj h2)

file_infos-get_elem? :
    (es : List Entry) (fis : List FileInfo) (i : ℕ) (fi : FileInfo) (e : Entry)
    → file_infos es ≡ some fis
    → get_elem? fis i ≡ some fi
    → get_elem? es i ≡ some e
    → file_info e ≡ some fi
file_infos-get_elem? [] fis i fi e h at_fis at_es = cc
file_infos-get_elem? (x ∷ es) fis zero fi e h at_fis at_es =
    let (y, ys, e1, e2, same) = file_infos-cons x es fis h in
    let k : some y ≡ some fi = ap (λ l. get_elem? l zero) same ∙ at_fis in
    subst (λ z. file_info z ≡ some fi) (some_inj at_es) (e1 ∙ k)
file_infos-get_elem? (x ∷ es) fis (suc i) fi e h at_fis at_es =
    let (y, ys, e1, e2, same) = file_infos-cons x es fis h in
    file_infos-get_elem? es ys i fi e e2 (ap (λ l. get_elem? l (suc i)) same ∙ at_fis) at_es

-- A row of a task that agrees with the provider's list as the worker read it, and whose URL
-- `download_link` returns: the URL comes from unlocking the link of the entry that stands in the provider's
-- list at the row's index, and this entry has the row's name and size. So the names on disk and the files that are downloaded are not mixed up as long as the provider
-- answers the same.
pub download_link-IsListed :
    (http : Http) (task_id magnet_id : Text) (es : List Entry) (fis : List FileInfo) (f : TaskFile)
    (url : Json)
    → get_magnet_status http magnet_id ≡ some es
    → file_infos es ≡ some fis
    → file_of task_id f ≡ true
    → IsListed fis task_id f
    → download_link http magnet_id f.index ≡ some url
    → (e : Entry) × (fi : FileInfo) × (link : Json) × (get_elem? es f.index ≡ some e)
      × (file_info e ≡ some fi)
      × (f.name ≡ name_or_default f.index fi.name)
      × (f.size_bytes ≡ some fi.size)
      × (e.link ≡ some link)
      × (unlock http link ≡ some url)
download_link-IsListed http task_id magnet_id es fis f url status infos ours listed h =
    let (fi, at_i, named, sized) = of_task ours listed in
    let (there, _) = download_link_lem http magnet_id f.index url in
    let (es', e, link, status', at_es, locked, unlocked) = there h in
    let same : es' ≡ es = some_inj (sym status' ∙ status) in
    let here : get_elem? es f.index ≡ some e = ap (λ l. get_elem? l f.index) (sym same) ∙ at_es in
    (
      e,
      fi,
      link,
      here,
      file_infos-get_elem? es fis f.index fi e infos at_i here,
      named,
      sized,
      locked,
      unlocked,
    )
  where
    of_task : file_of task_id f ≡ true → IsListed fis task_id f → IsNamed fis f
    of_task ours (inl other) = cc
    of_task ours (inr named) = named
