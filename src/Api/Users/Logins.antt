-- ===== src/Api/Users/Logins.antt =====
-- What a new account of app/api.py can do at once, and what toggling the admin flag twice leaves.
use all_debrid_proxy.Base.{
  ℕ, ◌≡◌, refl, ap, true, false, ◌||◌, some, List, [], ◌∷◌, ◌++◌, if◌then◌else◌, Bool-cases, inl,
  inr, Text, is_empty, text_eq, text_eq_refl, find, ok, ◌>>=◌, >>-eq-ok, >>=-eq-ok, subst,
}
use all_debrid_proxy.Constants.{Role}
use all_debrid_proxy.Models.{Db, User}
use all_debrid_proxy.Models.Rows.{find-update_first_self, update_first-update_first}
use all_debrid_proxy.Api.Errors.{HttpError, Response}
use all_debrid_proxy.Api.Users.{
  Passwords, has_user_id, has_username, user_named, get_user, change_user, CreateUserRequest,
  requested_role, new_user, add_user, is_taken, create_user, toggled, toggle_admin,
  verify_credentials,
}

ok_inj : (a b : Db) → ◌≡◌ {A = Response Db} (ok a) (ok b) → a ≡ b
ok_inj a b h = cc

find_added :
    (u : User) (us : List User)
    → is_taken (find (has_username u.username) us) ≡ false
    → find (has_username u.username) (us ++ (u ∷ [])) ≡ some u
find_added u [] free = rw (text_eq_refl u.username) refl
find_added u (x ∷ us) free = elim (Bool-cases (text_eq x.username u.username)) [
  | inl e ↦ absurd_taken (rw e at free)
  | inr e ↦ rw e (find_added u us (rw e at free))
]
  where
    absurd_taken : {A : Type 0} → true ≡ false → A
    absurd_taken h = cc

verify_added :
    (P : Passwords) (salt : Text) (id now later : ℕ) (req : CreateUserRequest) (role : Role)
    (db : Db)
    → is_taken (user_named req.username db) ≡ false
    → verify_credentials P later req.username req.password
        (add_user (new_user P salt id now req role) db)
      ≡ ok (
        new_user P salt id now req role,
        change_user id
            (λ u. record u { last_login = some later })
            (add_user (new_user P salt id now req role) db),
      )
unfolding verify_credentials user_named
verify_added P salt id now later req role db free =
    rw (find_added (new_user P salt id now req role) db.users free, P.check-hash salt req.password)
      refl

-- Whoever creates an account can log in at once with the username and the password of the request: the
-- account found is the new one, with the role that the request asks for.
pub create_user-verify_credentials :
    (P : Passwords) (salt : Text) (id now later : ℕ) (req : CreateUserRequest) (db new : Db)
    → create_user P salt id now req db ≡ ok new
    → (role : Role) × (requested_role req ≡ ok role)
      × (verify_credentials P later req.username req.password new
          ≡ ok (
            new_user P salt id now req role,
            change_user id (λ u. record u { last_login = some later }) new,
          ))
unfolding create_user
create_user-verify_credentials P salt id now later req db new e =
    let (_, chosen) =
      >>-eq-ok (is_empty req.username || is_empty req.password) HttpError.credentials_required _
        e in
    let (role, asked, guarded) = >>=-eq-ok (requested_role req) _ chosen in
    let (free, added) =
      >>-eq-ok (is_taken (user_named req.username db)) HttpError.conflict _ guarded in
    let same = ok_inj (add_user (new_user P salt id now req role) db) new added in
    (
      role,
      asked,
      subst
          (λ d.
            verify_credentials P later req.username req.password d
            ≡ ok (
              new_user P salt id now req role,
              change_user id (λ u. record u { last_login = some later }) d,
            ))
          same (verify_added P salt id now later req role db free),
    )

-- What two toggles leave of an account: a role that only the flag decides.
abbrev pub settled : User → User
settled u = record u { role = if u.is_admin then Role.admin else Role.user }

toggled-toggled : (u : User) → toggled (toggled u) ≡ settled u
toggled-toggled u = elim (Bool-cases u.is_admin) [ inl e ↦ rw e refl | inr e ↦ rw e refl ]

-- Toggling the admin flag of an account twice succeeds, and resets its role to ADMIN or USER by the
-- flag: the role MEMBER is lost.
toggle_admin-twice :
    (id : ℕ) (db : Db) (u : User)
    → get_user id db ≡ some u
    → (toggle_admin id db >>= toggle_admin id) ≡ ok (change_user id settled db)
unfolding toggle_admin get_user change_user
toggle_admin-twice id db u found =
    rw
      (
        found,
        find-update_first_self (has_user_id id) toggled db.users u (λ x h. h) found,
        update_first-update_first (has_user_id id) toggled toggled db.users (λ x h. h),
      )
      (ap (λ f. ok (change_user id f db)) (λ i x. toggled-toggled x i))
