-- ===== src/Worker/Resolve/Listed.antt =====
-- The rows that `resolve_task` lists, against the provider's list of files.
use all_debrid_proxy.Base.{
  ◌⊎◌, inr, false, ℕ, suc, ◌+◌, ◌≡◌, refl, sym, ap, ◌∙◌, Option, none, some, List, [], ◌∷◌, arith,
  Text, find, get_elem?, All, All-append, ok, err,
}
use all_debrid_proxy.Base.Unicode.{Unicode}
use all_debrid_proxy.Models.{TaskFile, files_of, file_of}
use all_debrid_proxy.World.{World}
use all_debrid_proxy.Validation.Invalid.{Validated}
use all_debrid_proxy.Validation.Names.{validate_file_name}
use all_debrid_proxy.Worker.Client.{FileInfo}
use all_debrid_proxy.Worker.Resolve.{
  name_or_default, new_file, has_index, Listing, list_file, list_files, list_found,
}

-- The list has an entry at the row's index, and the row has its name and size.
abbrev pub IsNamed : List FileInfo → TaskFile → Type 0
IsNamed files f =
    (fi : FileInfo) × (get_elem? files f.index ≡ some fi)
    × (f.name ≡ name_or_default f.index fi.name)
    × (f.size_bytes ≡ some fi.size)

-- So it is with a row of the task; the row may also belong to another one.
abbrev pub IsListed : List FileInfo → Text → TaskFile → Type 0
IsListed files task_id f = (file_of task_id f ≡ false) ⊎ IsNamed files f

module _ (U : Unicode) (new_id : ℕ → Text) (task_id : Text) (files : List FileInfo) where
  list_file-IsListed :
      (i : ℕ) (fi : FileInfo) (o : Option TaskFile) (l : Listing)
      → get_elem? files i ≡ some fi
      → All (IsListed files task_id) l.db.files
      → All
          (IsListed files task_id)
          (list_file (new_id i) task_id i (name_or_default i fi.name) fi.size o l).db.files
  list_file-IsListed i fi (some tf) l at_i h = h
  list_file-IsListed i fi none l at_i h =
      All-append (IsListed files task_id) l.db.files
        (new_file (new_id i) task_id i (name_or_default i fi.name) fi.size ∷ []) h
        (inr (fi, at_i, refl, refl), tt)

  list_files-IsListed :
      (existing : List TaskFile) (i : ℕ) (fis : List FileInfo) (l : Listing)
      → ((j : ℕ) → get_elem? fis j ≡ get_elem? files (i + j))
      → All (IsListed files task_id) l.db.files
      → All (IsListed files task_id) (list_files U new_id task_id existing i fis l).db.files
  unfolding list_files
  list_files-IsListed existing i [] l rest h = h
  list_files-IsListed existing i (fi ∷ fis) l rest h =
      list_files-IsListed existing (i + 1) fis _
        (λ j. let e : i + suc j ≡ i + 1 + j = omega arith in rest (suc j) ∙ ap (get_elem? files) e)
        (entry (validate_file_name U (name_or_default i fi.name)))
    where
      at_i : get_elem? files i ≡ some fi
      at_i = let e : i ≡ i + 0 = omega arith in ap (get_elem? files) e ∙ sym (rest 0)

      entry :
          (v : Validated Text)
          → All (IsListed files task_id) (
              let l' : Listing = elim v [
                | err e ↦ l
                | ok n ↦
                    list_file
                      (new_id i)
                      task_id
                      i
                      (name_or_default i fi.name)
                      fi.size
                      (find (has_index i) existing)
                      l
              ] in
              l'.db.files)
      entry (err e) = h
      entry (ok n) = list_file-IsListed i fi (find (has_index i) existing) l at_i h

  -- If each row of the task has the name and size of the entry of the provider's list at the row's index,
  -- this still holds after the list has been listed again: entries whose names are refused leave a gap and
  -- do not shift the indices of the others.
  pub list_found-IsListed :
      (w : World)
      → All (IsListed files task_id) w.db.files
      → All (IsListed files task_id) (list_found U new_id task_id files w).db.files
  unfolding list_found
  list_found-IsListed w h =
      list_files-IsListed (files_of task_id w.db) 0 files (record { db = w.db; listed = [] })
        (λ j. let e : j ≡ 0 + j = omega arith in ap (get_elem? files) e) h
