-- ===== src/Api/Uploads/Laws.antt =====
-- What `upload_file_task` of app/api.py stores.
pub mod Name
use all_debrid_proxy.Base.{
  ℕ, ◌+◌, ◌≤◌, ◌≡◌, ◌≢◌, ◌==◌, refl, sym, ap, ◌∙◌, subst, Bool, true, false, Option, none, some,
  List, [], ◌∷◌, ◌++◌, arith, ltb, if◌then◌else◌, Bool-cases, inl, inr, ◌⊎◌, Text, is_empty, length,
  length-append, any, All, ℤ, pos, negsuc, Result, ok, err,
}
use all_debrid_proxy.Base.Unicode.{Unicode}
use all_debrid_proxy.Constants.{Status, FileState, max_upload_file_size}
use all_debrid_proxy.Models.{User, Task, TaskFile}
use all_debrid_proxy.World.{World}
use all_debrid_proxy.Api.Errors.{HttpError, Response}
use all_debrid_proxy.Api.Tasks.{or_400, checked_label, checked_user}
use all_debrid_proxy.Api.Uploads.Names.{safe_name}
use all_debrid_proxy.Api.Uploads.{
  Folder, Read, receive, Upload, uploaded_task, uploaded_file, is_known_user, store_upload,
  Uploaded, Outcome, cleaned_up, Drawn, finish_upload, check_user, check_label, upload_file_task,
}

-- The bytes of a file that is read to its end.
abbrev pub content : List Read → Text
content [] = []
content (none ∷ reads) = []
content (some [] ∷ reads) = []
content (some (c ∷ s) ∷ reads) = (c ∷ s) ++ content reads

abbrev IsReceived : List Read → ℕ → Text → ℕ × Text → Type 0
IsReceived reads n written (size, bytes) =
    (bytes ≡ written ++ content reads)
    × (size ≡ n + length (content reads))
    × (size ≤ max_upload_file_size)

append-[] : (s : Text) → s ≡ s ++ []
append-[] [] = refl
append-[] (c ∷ s) = ap (λ t. c ∷ t) (append-[] s)

append_assoc : (r s t : Text) → (r ++ s) ++ t ≡ r ++ (s ++ t)
append_assoc [] s t = refl
append_assoc (c ∷ r) s t = ap (λ x. c ∷ x) (append_assoc r s t)

ok_inj : {a b : ℕ × Text} (r : Response (ℕ × Text)) → r ≡ ok a → r ≡ ok b → a ≡ b
ok_inj r h g = cc

at_end :
    (n : ℕ) (written : Text) (p : ℕ × Text)
    → n ≤ max_upload_file_size
    → (n, written) ≡ p
    → IsReceived [] n written p
at_end n written p le e = subst (IsReceived [] n written) e (append-[] written, omega arith, le)

receive_lem :
    (reads : List Read) (n : ℕ) (written : Text) (p : ℕ × Text)
    → n ≤ max_upload_file_size
    → receive reads n written ≡ ok p
    → IsReceived reads n written p
unfolding receive
receive_lem [] n written p le h = at_end n written p le (ok_inj (ok (n, written)) refl h)
receive_lem (none ∷ reads) n written p le h = cc
receive_lem (some [] ∷ reads) n written p le h =
    at_end n written p le (ok_inj (ok (n, written)) refl h)
receive_lem (some (c ∷ s) ∷ reads) n written (size, bytes) le h =
    let chunk : Text = c ∷ s in
    let limit = ltb max_upload_file_size (n + length chunk) in
    let fits : (limit ≡ false)
        × (receive reads (n + length chunk) (written ++ chunk) ≡ ok (size, bytes)) =
      passed limit (receive reads (n + length chunk) (written ++ chunk)) h in
    let (e1, e2, e3) =
      receive_lem reads (n + length chunk) (written ++ chunk) (size, bytes) (ground (arith, fits.0))
        fits.1 in
    (
      e1 ∙ append_assoc written chunk (content reads),
      omega (arith, e2, length-append chunk (content reads)),
      e3,
    )
  where
    passed :
        (b : Bool) (r : Response (ℕ × Text))
        → (if b then err HttpError.too_large else r) ≡ ok (size, bytes)
        → (b ≡ false) × (r ≡ ok (size, bytes))
    passed true r h = cc
    passed false r h = (refl, h)

-- The upload was refused: the folder of the task is gone and the world is as it was.
abbrev pub IsUndone : World → Outcome → Type 0
IsUndone w o = (e : HttpError) × (o.result ≡ err e) × (o.world ≡ w) × (o.folder ≡ Folder.absent)

-- The upload went well: the folder holds the file with all its bytes and nothing else, and the tables have one
-- row more each, a finished task and its file, which tells its name and its size.
abbrev pub IsStored : Drawn → Text → Text → World → Outcome → Type 0
IsStored d name bytes w o =
    (t : Task) × (f : TaskFile) × (o.result
      ≡ ok (record { task_id = d.task_id; filename = name; size = length bytes }))
    × (length bytes ≤ max_upload_file_size)
    × (o.folder ≡ Folder.present ((name, bytes) ∷ []))
    × (o.world.db.tasks ≡ w.db.tasks ++ (t ∷ []))
    × (t.id ≡ d.task_id)
    × (t.status ≡ Status.completed)
    × (o.world.db.files ≡ w.db.files ++ (f ∷ []))
    × (f.task_id ≡ d.task_id)
    × (f.name ≡ name)
    × (f.size_bytes ≡ some (length bytes))
    × (f.state ≡ FileState.done)

-- The request names a user without a row: the database is as it was, but the file stays in the folder.
abbrev pub IsOrphan : Upload → Text → Text → World → Outcome → Type 0
IsOrphan up name bytes w o =
    (user : ℕ) × (up.user_id ≡ some (pos user))
    × All (λ (u : User). u.id ≢ user) w.db.users
    × (o.result ≡ err HttpError.server_error)
    × (o.world ≡ w)
    × (o.folder ≡ Folder.present ((name, bytes) ∷ []))

-- What an upload may come to.
abbrev pub IsSettled : Drawn → Upload → Text → Text → World → Outcome → Type 0
IsSettled d up name bytes w o =
    IsUndone w o ⊎ IsStored d name bytes w o ⊎ IsOrphan up name bytes w o

no_such_user :
    (user : ℕ) (us : List User)
    → any (λ (u : User). u.id == user) us ≡ false
    → All (λ (u : User). u.id ≢ user) us
no_such_user user [] h = tt
no_such_user user (u ∷ us) h = elim (Bool-cases (u.id == user)) [
  | inl e ↦ absurd (true_false (rw e at h))
  | inr e ↦ (ground (arith, e), no_such_user user us (rw e at h))
]
  where
    true_false : true ≡ false → ⊥
    true_false h = cc

-- The user of the row is the one of the request.
checked_user-eq-ok :
    (i : Option ℤ) (user : ℕ) → or_400 (checked_user i) ≡ ok (some user) → i ≡ some (pos user)
checked_user-eq-ok none user h = cc
checked_user-eq-ok (some (pos n)) user h = cc
checked_user-eq-ok (some (negsuc n)) user h = cc

finish_upload_lem :
    (d : Drawn) (up : Upload) (name bytes : Text) (label : Option Text) (user : Option ℕ)
    (w : World)
    → or_400 (checked_user up.user_id) ≡ ok user
    → length bytes ≤ max_upload_file_size
    → IsSettled d up name bytes w (finish_upload up d name (length bytes) bytes label user w)
unfolding finish_upload store_upload
finish_upload_lem d up name bytes label user w h le = elim (Bool-cases (is_known_user user w.db)) [
  | inl e ↦ rw e (
      inr (
        inl (
          uploaded_task up label user d.task_id d.identifier d.now,
          uploaded_file d.task_id d.file_id name (length bytes),
          refl,
          le,
          refl,
          refl,
          refl,
          refl,
          refl,
          refl,
          refl,
          refl,
          refl,
        )))
  | inr e ↦ rw e (inr (inr (unknown user h e)))
]
  where
    o : Outcome
    o = record {
      result = err HttpError.server_error;
      world = w;
      folder = Folder.present ((name, bytes) ∷ []);
    }

    unknown :
        (user : Option ℕ)
        → or_400 (checked_user up.user_id) ≡ ok user
        → is_known_user user w.db ≡ false
        → IsOrphan up name bytes w o
    unknown none h e = cc
    unknown (some n) h e =
        (n, checked_user-eq-ok up.user_id n h, no_such_user n w.db.users e, refl, refl, refl)

check_user_lem :
    (d : Drawn) (up : Upload) (name bytes : Text) (label : Option Text) (w : World)
    → length bytes ≤ max_upload_file_size
    → let o = check_user up d name (length bytes) bytes label w in IsSettled d up name bytes w o
unfolding check_user
check_user_lem d up name bytes label w le = by_user (or_400 (checked_user up.user_id)) refl
  where
    by_user :
        (r : Response (Option ℕ))
        → or_400 (checked_user up.user_id) ≡ r
        → let o : Outcome = elim r [
          | err e ↦ cleaned_up e w
          | ok user ↦ finish_upload up d name (length bytes) bytes label user w
        ] in
          IsSettled d up name bytes w o
    by_user (err e) h = inl (e, refl, refl, refl)
    by_user (ok user) h = finish_upload_lem d up name bytes label user w h le

check_label_lem :
    (d : Drawn) (up : Upload) (name bytes : Text) (w : World)
    → length bytes ≤ max_upload_file_size
    → let o = check_label up d name (length bytes) bytes w in IsSettled d up name bytes w o
unfolding check_label
check_label_lem d up name bytes w le = by_label (or_400 (checked_label up.label))
  where
    by_label :
        (r : Response (Option Text))
        → let o : Outcome = elim r [
          | err e ↦ cleaned_up e w
          | ok label ↦ check_user up d name (length bytes) bytes label w
        ] in
          IsSettled d up name bytes w o
    by_label (err e) = inl (e, refl, refl, refl)
    by_label (ok label) = check_user_lem d up name bytes label w le

-- An upload comes to one of three ends. It stores the whole file, no larger than the limit, under the safe name
-- and alone in the folder of the task, and adds a finished task and a row for the file with this name and size.
-- Or it is refused and leaves no trace on the disk or in the database. Or it names a user without a row: then the
-- database is as it was, and the file stays on the disk.
pub upload_file_task_lem :
    (U : Unicode) (d : Drawn) (up : Upload) (w : World)
    → let o = upload_file_task U d up w in
      IsSettled d up (safe_name U up.original_filename d.now) (content up.reads) w o
unfolding upload_file_task
upload_file_task_lem U d up w = elim (Bool-cases (is_empty up.original_filename)) [
  | inl e ↦ rw e (inl (HttpError.no_file, refl, refl, refl))
  | inr e ↦ rw e (received (receive up.reads 0 []) refl)
]
  where
    name : Text
    name = safe_name U up.original_filename d.now

    received :
        (r : Response (ℕ × Text))
        → receive up.reads 0 [] ≡ r
        → let o : Outcome = elim r [
          | err e ↦ cleaned_up e w
          | ok (size, bytes) ↦ check_label up d name size bytes w
        ] in
          IsSettled d up name (content up.reads) w o
    received (err e) h = inl (e, refl, refl, refl)
    received (ok (size, bytes)) h =
        let (e1, e2, e3) = receive_lem up.reads 0 [] (size, bytes) (omega arith) h in
        let e : length (content up.reads) ≡ size = omega (arith, e2) in
        rw (e1, sym e) (check_label_lem d up name (content up.reads) w (omega (arith, e, e3)))
