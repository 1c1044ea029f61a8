-- ===== src/Frontend/Login/Setup.antt =====
-- The first-time setup of frontend/app.py and the login that follows it.
use all_debrid_proxy.Base.{
  ℕ, ◌≡◌, refl, ap, Bool, true, false, ◌||◌, none, some, List, [], ◌∷◌, ◌++◌, arith, map, Text,
  is_empty, Bool-cases, inl, inr, subst, ok, err, ltb, length, ◌>>=◌,
}
use all_debrid_proxy.Constants.{Role}
use all_debrid_proxy.Models.{Db, User, update_first}
use all_debrid_proxy.Api.Errors.{Response}
use all_debrid_proxy.Api.Users
use all_debrid_proxy.Api.Users.{
  Passwords, CreateUserRequest, has_username, user_named, new_user, add_user, change_user,
  check_has_users, checked_user, verify_credentials,
}
use all_debrid_proxy.Api.Users.Logins.{create_user-verify_credentials}
use all_debrid_proxy.Frontend.Login.{Page, setup_request, login_page, sign_in}

-- The row of a user, but for the time of the last login.
abbrev pub account : User → User
account u = record u { last_login = none }

-- Everything that the database holds, but for the times of the last logins.
abbrev pub but_logins : Db → Db
but_logins db = record db { users = map account db.users }

accounts-update_first :
    (p : User → Bool) (now : ℕ) (us : List User)
    → map account (update_first p (λ u. record u { last_login = some now }) us) ≡ map account us
unfolding update_first
accounts-update_first p now [] = refl
accounts-update_first p now (u ∷ us) = elim (Bool-cases (p u)) [
  | inl e ↦ rw e refl
  | inr e ↦ rw e (ap (λ l. account u ∷ l) (accounts-update_first p now us))
]

-- As soon as there is a user, the login page creates no account and changes none: whatever user name and password
-- are submitted, nothing in the database changes but the times of last logins.
pub sign_in-accounts :
    (P : Passwords) (salt : Text) (id now : ℕ) (username password : Text) (db : Db)
    → check_has_users db ≡ true
    → but_logins (sign_in P salt id now username password db).1 ≡ but_logins db
unfolding sign_in verify_credentials change_user
sign_in-accounts P salt id now username password db h =
    rw (sign_in, h) (by_user (checked_user P password (user_named username db)))
  where
    by_user :
        (r : Response User)
        → but_logins
            (login_page db
              (r >>= λ u. ok (u, change_user u.id (λ u. record u { last_login = some now }) db))).1
          ≡ but_logins db
    by_user (err e) = refl
    by_user (ok u) =
        unfold change_user in
        ap (λ us. record db { users = us })
          (accounts-update_first (Users.has_user_id u.id) now db.users)

abbrev pub first_admin : Passwords → Text → ℕ → ℕ → Text → Text → User
first_admin P salt id now username password =
    new_user P salt id now (setup_request username password) Role.admin

create_user-first :
    (P : Passwords) (salt : Text) (id now : ℕ) (username password : Text) (db : Db)
    → (is_empty username || is_empty password) ≡ false
    → db.users ≡ []
    → Users.create_user P salt id now (setup_request username password) db
      ≡ ok (add_user (first_admin P salt id now username password) db)
unfolding Users.create_user user_named
create_user-first P salt id now username password db filled none_yet =
    rw (Users.create_user, none_yet, filled) refl

ok_inj : (r : Response Role) {a b : Role} → r ≡ ok a → r ≡ ok b → a ≡ b
ok_inj r h g = cc

verify_credentials-first :
    (P : Passwords) (salt : Text) (id now later : ℕ) (username password : Text) (db : Db)
    → (is_empty username || is_empty password) ≡ false
    → db.users ≡ []
    → let u = first_admin P salt id now username password in
      verify_credentials P later username password (add_user u db)
      ≡ ok (u, change_user id (λ u. record u { last_login = some later }) (add_user u db))
verify_credentials-first P salt id now later username password db filled none_yet =
    let u = first_admin P salt id now username password in
    let (role, asked, verified) =
      create_user-verify_credentials P salt id now later (setup_request username password) db
        (add_user u db) (create_user-first P salt id now username password db filled none_yet) in
    let same : role ≡ Role.admin = ok_inj (ok Role.admin) asked refl in
    subst
      (λ r.
        verify_credentials P later username password (add_user u db)
        ≡ ok (
          new_user P salt id now (setup_request username password) r,
          change_user id (λ u. record u { last_login = some later }) (add_user u db),
        ))
      same verified

check_has_users-add_user : (u : User) (db : Db) → check_has_users (add_user u db) ≡ true
unfolding check_has_users
check_has_users-add_user u db = present u db.users
  where
    present : (u : User) (us : List User) → ltb 0 (length (us ++ (u ∷ []))) ≡ true
    present u [] = refl
    present u (x ∷ us) = ground arith

-- On a site without users, the first credentials that are submitted become an account with the role ADMIN, and
-- the same credentials then log in as this administrator.
pub sign_in-first_admin :
    (P : Passwords) (salt salt' : Text) (id id' now later : ℕ) (username password : Text) (db : Db)
    → (is_empty username || is_empty password) ≡ false
    → db.users ≡ []
    → let first = sign_in P salt id now username password db in
      let second = sign_in P salt' id' later username password first.1 in
      (first.0 ≡ Page.login) × (second.0 ≡ Page.index (first_admin P salt id now username password))
unfolding check_has_users sign_in
sign_in-first_admin P salt salt' id id' now later username password db filled none_yet =
    let u = first_admin P salt id now username password in
    let none_there : check_has_users db ≡ false = rw (check_has_users, none_yet) refl in
    rw
      (
        sign_in,
        none_there,
        create_user-first P salt id now username password db filled none_yet,
        check_has_users-add_user u db,
        verify_credentials-first P salt id now later username password db filled none_yet,
      )
      (refl, refl)
