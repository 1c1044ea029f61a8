-- ===== src/Api/Users/Laws.antt =====
-- The flag, the role and the usernames of accounts under the user handlers of app/api.py.
use all_debrid_proxy.Base.{
  ℕ, ◌≡◌, refl, ap, ◌∙◌, Bool, true, false, not, ◌||◌, Option, none, some, List, [], ◌∷◌, ◌++◌, map,
  arith, Bool-cases, Option-cases, inl, inr, Text, is_empty, text_eq, find, filter, All, All-append,
  All-filter, ok, ◌>>=◌, >>-eq-ok, >>=-eq-ok, subst,
}
use all_debrid_proxy.Constants.{Role, is_admin_role}
use all_debrid_proxy.Models.{Db, User}
use all_debrid_proxy.Models.Rows.{All-update_first, map-update_first, UniqueIds}
use all_debrid_proxy.Api.Errors.{HttpError, Response}
use all_debrid_proxy.Api.Users.{
  Passwords, has_user_id, has_username, user_named, get_user, change_user, or_not_found,
  CreateUserRequest, requested_role, new_user, add_user, is_taken, create_user, delete_user,
  remove_user, toggled, toggle_admin, with_role, set_role, reset_password, checked_user,
  verify_credentials,
}

-- The flag says the same as the role.
abbrev pub IsInSync : User → Type 0
IsInSync u = u.is_admin ≡ is_admin_role u.role

abbrev pub usernames : List User → List Text
usernames us = map (λ u. u.username) us

pub record IsConsistent (db : Db) : Type 0 where
  pub in_sync : All IsInSync db.users
  pub unique : UniqueIds (usernames db.users)

-- One successful call of a handler.
pub data Step (P : Passwords) : Db → Db → Type 0 where
  create :
      {db new : Db} (salt : Text) (id now : ℕ) (req : CreateUserRequest)
      → create_user P salt id now req db ≡ ok new
      → Step P db new
  delete : {db : Db} (id : ℕ) → Step P db (delete_user id db)
  toggle : {db new : Db} (id : ℕ) → toggle_admin id db ≡ ok new → Step P db new
  change_role :
      {db new : Db} (id : ℕ) (role : Option Role) → set_role id role db ≡ ok new → Step P db new
  reset :
      {db new : Db} (salt : Text) (id : ℕ) (password : Text)
      → reset_password P salt id password db ≡ ok new
      → Step P db new
  log_in :
      {db new : Db} {u : User} (now : ℕ) (username password : Text)
      → verify_credentials P now username password db ≡ ok (u, new)
      → Step P db new

pub data Run (P : Passwords) (first : Db) : Db → Type 0 where
  here : Run P first first
  next : {db new : Db} → Run P first db → Step P db new → Run P first new

ok_inj : {A : Type 0} {a b : A} → ◌≡◌ {A = Response A} (ok a) (ok b) → a ≡ b
ok_inj h = cc

text_eq_comm : (s t : Text) → text_eq s t ≡ text_eq t s
unfolding text_eq
text_eq_comm [] [] = refl
text_eq_comm [] (d ∷ t) = refl
text_eq_comm (c ∷ s) [] = refl
text_eq_comm (c ∷ s) (d ∷ t) = ground (arith, text_eq_comm s t)

UniqueIds-append :
    (is : List Text) (n : Text)
    → All (λ i. text_eq i n ≡ false) is
    → UniqueIds is
    → UniqueIds (is ++ (n ∷ []))
UniqueIds-append [] n h u = (tt, tt)
UniqueIds-append (i ∷ is) n h u = (
  All-append (λ j. text_eq j i ≡ false) is (n ∷ []) u.0 (text_eq_comm n i ∙ h.0, tt),
  UniqueIds-append is n h.1 u.1,
)

All-usernames-filter :
    (q : Text → Bool) (p : User → Bool) (us : List User)
    → All (λ j. q j ≡ false) (usernames us)
    → All (λ j. q j ≡ false) (usernames (filter p us))
All-usernames-filter q p [] h = tt
All-usernames-filter q p (x ∷ us) h = elim (Bool-cases (p x)) [
  | inl e ↦ rw e (h.0, All-usernames-filter q p us h.1)
  | inr e ↦ rw e (All-usernames-filter q p us h.1)
]

UniqueIds-filter :
    (p : User → Bool) (us : List User)
    → UniqueIds (usernames us)
    → UniqueIds (usernames (filter p us))
UniqueIds-filter p [] h = tt
UniqueIds-filter p (x ∷ us) h = elim (Bool-cases (p x)) [
  | inl e ↦
      rw e (All-usernames-filter (λ j. text_eq j x.username) p us h.0, UniqueIds-filter p us h.1)
  | inr e ↦ rw e (UniqueIds-filter p us h.1)
]

usernames-append :
    (us : List User) (u : User) → usernames (us ++ (u ∷ [])) ≡ usernames us ++ (u.username ∷ [])
usernames-append [] u = refl
usernames-append (x ∷ us) u = ap (λ l. x.username ∷ l) (usernames-append us u)

none_named :
    (name : Text) (us : List User)
    → is_taken (find (has_username name) us) ≡ false
    → All (λ i. text_eq i name ≡ false) (usernames us)
none_named name [] h = tt
none_named name (x ∷ us) h = elim (Bool-cases (text_eq x.username name)) [
  | inl e ↦ absurd_taken (rw e at h)
  | inr e ↦ (e, none_named name us (rw e at h))
]
  where
    absurd_taken : {A : Type 0} → true ≡ false → A
    absurd_taken h = cc

change_user-IsConsistent :
    (id : ℕ) (f : User → User) (db : Db)
    → ((u : User) → IsInSync u → IsInSync (f u))
    → ((u : User) → (f u).username ≡ u.username)
    → IsConsistent db
    → IsConsistent (change_user id f db)
unfolding change_user
change_user-IsConsistent id f db sync name h = record {
  in_sync = All-update_first IsInSync (has_user_id id) f db.users (λ u e s. sync u s) h.in_sync;
  unique =
      rw (map-update_first (λ u. u.username) (has_user_id id) f db.users (λ u e. name u)) h.unique;
}

change_found-IsConsistent :
    (id : ℕ) (f : User → User) (db : Db) {new : Db}
    → ((u : User) → IsInSync u → IsInSync (f u))
    → ((u : User) → (f u).username ≡ u.username)
    → (or_not_found (get_user id db) >>= λ u. ok (change_user id f db)) ≡ ok new
    → IsConsistent db
    → IsConsistent new
change_found-IsConsistent id f db sync name e h =
    let (u, found, changed) =
      >>=-eq-ok (or_not_found (get_user id db)) (λ u. ok (change_user id f db)) e in
    subst IsConsistent (ok_inj changed) (change_user-IsConsistent id f db sync name h)

toggled-IsInSync : (u : User) → IsInSync (toggled u)
toggled-IsInSync u = elim (Bool-cases u.is_admin) [ inl e ↦ rw e refl | inr e ↦ rw e refl ]

add_user-IsConsistent :
    (u : User) (db : Db)
    → IsInSync u
    → is_taken (user_named u.username db) ≡ false
    → IsConsistent db
    → IsConsistent (add_user u db)
unfolding user_named
add_user-IsConsistent u db sync free h = record {
  in_sync = All-append IsInSync db.users (u ∷ []) h.in_sync (sync, tt);
  unique = rw (usernames-append db.users u) (
      UniqueIds-append (usernames db.users) u.username (none_named u.username db.users free)
        h.unique);
}

create_user-IsConsistent :
    (P : Passwords) (salt : Text) (id now : ℕ) (req : CreateUserRequest) (db : Db) {new : Db}
    → create_user P salt id now req db ≡ ok new
    → IsConsistent db
    → IsConsistent new
unfolding create_user
create_user-IsConsistent P salt id now req db e h =
    let (_, chosen) =
      >>-eq-ok (is_empty req.username || is_empty req.password) HttpError.credentials_required _
        e in
    let (role, _, guarded) = >>=-eq-ok (requested_role req) _ chosen in
    let (free, added) =
      >>-eq-ok (is_taken (user_named req.username db)) HttpError.conflict _ guarded in
    subst IsConsistent (ok_inj added)
      (add_user-IsConsistent (new_user P salt id now req role) db refl free h)

remove_user-IsConsistent : (id : ℕ) (db : Db) → IsConsistent db → IsConsistent (remove_user id db)
unfolding remove_user
remove_user-IsConsistent id db h = record {
  in_sync = All-filter IsInSync (λ u. not (has_user_id id u)) db.users h.in_sync;
  unique = UniqueIds-filter (λ u. not (has_user_id id u)) db.users h.unique;
}

delete_user-IsConsistent : (id : ℕ) (db : Db) → IsConsistent db → IsConsistent (delete_user id db)
unfolding delete_user
delete_user-IsConsistent id db h = elim (Option-cases (get_user id db)) [
  | inl e ↦ rw (e, delete_user) h
  | inr (u, e) ↦ rw (e, delete_user) (remove_user-IsConsistent id db h)
]

toggle_admin-IsConsistent :
    (id : ℕ) (db : Db) {new : Db} → toggle_admin id db ≡ ok new → IsConsistent db → IsConsistent new
unfolding toggle_admin
toggle_admin-IsConsistent id db e h =
    change_found-IsConsistent id toggled db (λ u s. toggled-IsInSync u) (λ u. refl) e h

set_role-IsConsistent :
    (id : ℕ) (role : Option Role) (db : Db) {new : Db}
    → set_role id role db ≡ ok new
    → IsConsistent db
    → IsConsistent new
unfolding set_role
set_role-IsConsistent id none db e h = cc
set_role-IsConsistent id (some role) db e h =
    change_found-IsConsistent id (with_role role) db (λ u s. refl) (λ u. refl) e h

reset_password-IsConsistent :
    (P : Passwords) (salt : Text) (id : ℕ) (password : Text) (db : Db) {new : Db}
    → reset_password P salt id password db ≡ ok new
    → IsConsistent db
    → IsConsistent new
unfolding reset_password
reset_password-IsConsistent P salt id password db e h =
    let (_, found) = >>-eq-ok (is_empty password) HttpError.password_required _ e in
    change_found-IsConsistent id (λ u. record u { password_hash = P.hash salt password }) db
      (λ u s. s) (λ u. refl) found h

verify_credentials-IsConsistent :
    (P : Passwords) (now : ℕ) (username password : Text) (db : Db) {u : User} {new : Db}
    → verify_credentials P now username password db ≡ ok (u, new)
    → IsConsistent db
    → IsConsistent new
unfolding verify_credentials
verify_credentials-IsConsistent P now username password db e h =
    let (found, _, logged) = >>=-eq-ok (checked_user P password (user_named username db)) _ e in
    subst IsConsistent (ap (λ p. p.1) (ok_inj logged)) (
      change_user-IsConsistent found.id (λ u. record u { last_login = some now }) db (λ u s. s)
        (λ u. refl) h)

Step-IsConsistent :
    {P : Passwords} {db new : Db} → Step P db new → IsConsistent db → IsConsistent new
Step-IsConsistent {P} {db} (create salt id now req e) h =
    create_user-IsConsistent P salt id now req db e h
Step-IsConsistent {P} {db} (delete id) h = delete_user-IsConsistent id db h
Step-IsConsistent {P} {db} (toggle id e) h = toggle_admin-IsConsistent id db e h
Step-IsConsistent {P} {db} (change_role id role e) h = set_role-IsConsistent id role db e h
Step-IsConsistent {P} {db} (reset salt id password e) h =
    reset_password-IsConsistent P salt id password db e h
Step-IsConsistent {P} {db} (log_in now username password e) h =
    verify_credentials-IsConsistent P now username password db e h

-- Whatever calls of the user handlers succeed one after the other, from a consistent database on no
-- username occurs twice, and each account's flag `is_admin` says whether its role is ADMIN.
pub Run-IsConsistent :
    {P : Passwords} {first db : Db} → Run P first db → IsConsistent first → IsConsistent db
Run-IsConsistent here h = h
Run-IsConsistent (next run step) h = Step-IsConsistent step (Run-IsConsistent run h)
