-- ===== src/Frontend/Share/Below.antt =====
-- Where the files are that the file share of frontend/app.py serves.
use all_debrid_proxy.Base.{
  ◌≡◌, refl, subst, Bool, true, false, not, ◌||◌, [], ◌∷◌, ◌++◌, Text, codes, text_eq, text_eq→eq,
  Result, ok, raise_if, ◌>>=◌, ◌>>◌, >>-eq-ok, >>=-eq-ok, &&_true,
}
use all_debrid_proxy.Validation.Ids.{matches_uuid}
use all_debrid_proxy.Frontend.Share.{
  FilePath, Disk, Refused, is_below, joined_to, safe_task_base, safe_resolve_relpath,
  is_still_downloading, served_file,
}

is_below-is_below :
    (a b c : FilePath) → is_below a b ≡ true → is_below b c ≡ true → is_below a c ≡ true
unfolding is_below
is_below-is_below [] b c h g = refl
is_below-is_below (x ∷ a) [] c h g = cc
is_below-is_below (x ∷ a) (y ∷ b) [] h g = cc
is_below-is_below (x ∷ a) (y ∷ b) (z ∷ c) h g =
    let (h1, h2) = &&_true (text_eq x y) (is_below a b) h in
    let (g1, g2) = &&_true (text_eq y z) (is_below b c) g in
    rw (text_eq→eq x y h1, g1, is_below-is_below a b c h2 g2) refl

not-false : (b : Bool) → not b ≡ false → b ≡ true
not-false true h = refl
not-false false h = cc

ok_inj : (r : Result Refused FilePath) {a b : FilePath} → r ≡ ok a → r ≡ ok b → a ≡ b
ok_inj r h g = cc

module _ (disk : Disk) (storage_root : FilePath) where
  base-is_below :
      (task_id : Text) (base : FilePath)
      → safe_task_base disk storage_root task_id ≡ ok base
      → is_below (disk.resolve storage_root) base ≡ true
  unfolding safe_task_base
  base-is_below task_id base h =
      let root = disk.resolve storage_root in
      let found = disk.resolve (root ++ (task_id ∷ codes "files" ∷ [])) in
      let (_, h1) = >>-eq-ok (not (matches_uuid task_id)) Refused.bad_request _ h in
      let (below, h2) = >>-eq-ok (not (is_below root found)) Refused.bad_request _ h1 in
      let (_, h3) = >>-eq-ok (not (disk.exists found)) Refused.missing _ h2 in
      subst (λ p. is_below root p ≡ true) (ok_inj (ok found) refl h3)
        (not-false (is_below root found) below)

  -- The file is below the base, exists and is a file.
  abbrev IsFound : FilePath → FilePath → Type 0
  IsFound base full =
      (is_below base full ≡ true) × (disk.exists full ≡ true) × (disk.is_file full ≡ true)

  not_or_not : (a b : Bool) → (not a || not b) ≡ false → (a ≡ true) × (b ≡ true)
  not_or_not true true h = (refl, refl)
  not_or_not true false h = cc
  not_or_not false b h = cc

  full-IsFound :
      (base : FilePath) (relpath : Text) (full : FilePath)
      → safe_resolve_relpath disk base relpath ≡ ok full
      → IsFound base full
  unfolding safe_resolve_relpath
  full-IsFound base relpath full h =
      let found = disk.resolve (joined_to base relpath) in
      let (below, h1) = >>-eq-ok (not (is_below base found)) Refused.bad_request _ h in
      let (there, h2) =
        >>-eq-ok (not (disk.exists found) || not (disk.is_file found)) Refused.missing _ h1 in
      let (e, f) = not_or_not (disk.exists found) (disk.is_file found) there in
      subst (IsFound base) (ok_inj (ok found) refl h2) (not-false (is_below base found) below, e, f)

  -- Whatever the id and the path of the request are, and whatever links there are on the disk, a file that is served
  -- is an existing file whose resolved path is below the resolved storage root, and it is not being downloaded.
  pub served_file-is_below :
      (task_id relpath : Text) (full : FilePath)
      → served_file disk storage_root task_id relpath ≡ ok full
      → (is_below (disk.resolve storage_root) full ≡ true)
        × (disk.exists full ≡ true)
        × (disk.is_file full ≡ true)
        × (is_still_downloading disk full ≡ false)
  unfolding served_file
  served_file-is_below task_id relpath full h =
      let (base, h1, h2) =
        >>=-eq-ok (safe_task_base disk storage_root task_id) (resolved relpath) h in
      let (found, h3, h4) = >>=-eq-ok (safe_resolve_relpath disk base relpath) idle h2 in
      let (waits, h5) = >>-eq-ok (is_still_downloading disk found) Refused.still_downloading _ h4 in
      let (below, e, f) = full-IsFound base relpath found h3 in
      subst
        (λ p.
          (is_below (disk.resolve storage_root) p ≡ true)
          × (disk.exists p ≡ true)
          × (disk.is_file p ≡ true)
          × (is_still_downloading disk p ≡ false))
        (ok_inj (ok found) refl h5)
        (
          is_below-is_below (disk.resolve storage_root) base found (base-is_below task_id base h1)
              below,
          e,
          f,
          waits,
        )
    where
      idle : FilePath → Result Refused FilePath
      idle p = raise_if (is_still_downloading disk p) Refused.still_downloading >> ok p

      resolved : Text → FilePath → Result Refused FilePath
      resolved relpath base = safe_resolve_relpath disk base relpath >>= idle
