-- ===== src/Api/Users.antt =====
-- The user handlers of app/api.py; app/user_manager.py holds the same operations for other callers.
-- `Passwords` is werkzeug's `generate_password_hash` (with the salt that it draws) and
-- `check_password_hash`, of which the program needs that a password passes against its own hash.
pub mod Laws
pub mod Logins
use all_debrid_proxy.Base.{
  ℕ, ◌+◌, ◌≡◌, Bool, true, false, not, ◌&&◌, ◌||◌, Option, none, some, List, [], ◌∷◌, ◌++◌, map,
  ltb, length, ◌==◌, if◌then◌else◌, Text, is_empty, text_eq, find, filter, Result, ok, err, ◌>>=◌,
  ◌>>◌, raise_if,
}
use all_debrid_proxy.Constants
use all_debrid_proxy.Constants.{Role, is_admin_role}
use all_debrid_proxy.Models.{Db, Task, TaskFile, User, UserStats, update_first}
use all_debrid_proxy.Api.Errors
use all_debrid_proxy.Api.Errors.{HttpError, Response}

pub record Passwords : Type 0 where
  pub hash : Text → Text → Text
  pub check : Text → Text → Bool
  pub check-hash : (salt password : Text) → check (hash salt password) password ≡ true

abbrev pub has_user_id : ℕ → User → Bool
has_user_id id u = u.id == id

abbrev pub has_username : Text → User → Bool
has_username name u = text_eq u.username name

-- `s.get(User, user_id)`
unfoldable pub get_user : ℕ → Db → Option User
get_user id db = find (has_user_id id) db.users

-- `s.query(User).filter(User.username == username).first()`
unfoldable pub user_named : Text → Db → Option User
user_named name db = find (has_username name) db.users

unfoldable pub change_user : ℕ → (User → User) → Db → Db
unfolding update_first
change_user id f db = record db { users = update_first (has_user_id id) f db.users }

abbrev pub or_not_found {ℓ} : {A : Type ℓ} → Option A → Response A
or_not_found none = err HttpError.not_found
or_not_found (some a) = ok a

-- `CreateUserRequest`. A role that is no role is `some none`; an empty one counts as absent.
pub record CreateUserRequest : Type 0 where
  pub username : Text
  pub password : Text
  pub is_admin : Bool
  pub role : Option (Option Role)

abbrev pub requested_role : CreateUserRequest → Response Role
requested_role req = elim req.role [
  | none ↦ ok (if req.is_admin then Role.admin else Role.user)
  | some none ↦ err HttpError.invalid_role
  | some (some r) ↦ ok r
]

-- The row of a new account, and that of its statistics.
abbrev pub new_user : Passwords → Text → ℕ → ℕ → CreateUserRequest → Role → User
new_user P salt id now req role = record {
  id = id;
  username = req.username;
  password_hash = P.hash salt req.password;
  is_admin = is_admin_role role;
  role = role;
  created_at = now;
  last_login = none;
}

abbrev pub add_user : User → Db → Db
add_user u db = record db {
  users = db.users ++ (u ∷ []);
  stats =
      db.stats
      ++ (record {
        user_id = u.id;
        total_downloads = 0;
        total_magnets_processed = 0;
        total_bytes_downloaded = 0;
      }
          ∷ []);
}

abbrev pub is_taken : Option User → Bool
is_taken none = false
is_taken (some u) = true

-- `id` is the key that the database draws, `salt` that of the hash.
unfoldable pub create_user : Passwords → Text → ℕ → ℕ → CreateUserRequest → Db → Response Db
unfolding user_named
create_user P salt id now req db = do
  raise_if (is_empty req.username || is_empty req.password) HttpError.credentials_required
  role ← requested_role req
  raise_if (is_taken (user_named req.username db)) HttpError.conflict
  ok (add_user (new_user P salt id now req role) db)

-- `s.delete(u)` with the cascades to tasks, their files, and statistics; no error if there is no user.
abbrev pub owned_by : ℕ → Task → Bool
owned_by id t = elim t.user_id [ none ↦ false | some u ↦ u == id ]

abbrev pub in_tasks : List Task → TaskFile → Bool
in_tasks ts f = elim (find (λ t. text_eq t.id f.task_id) ts) [ none ↦ false | some t ↦ true ]

unfoldable pub remove_user : ℕ → Db → Db
remove_user id db = record {
  tasks = filter (λ t. not (owned_by id t)) db.tasks;
  files = filter (λ f. not (in_tasks (filter (owned_by id) db.tasks) f)) db.files;
  users = filter (λ u. not (has_user_id id u)) db.users;
  stats = filter (λ s. not (s.user_id == id)) db.stats;
}

unfoldable pub delete_user : ℕ → Db → Db
unfolding get_user remove_user
delete_user id db = elim (get_user id db) [ none ↦ db | some u ↦ remove_user id db ]

abbrev pub toggled : User → User
toggled u = record u {
  is_admin = not u.is_admin;
  role = if not u.is_admin then Role.admin else Role.user;
}

unfoldable pub toggle_admin : ℕ → Db → Response Db
unfolding get_user change_user
toggle_admin id db = do u ← or_not_found (get_user id db); ok (change_user id toggled db)

abbrev pub with_role : Role → User → User
with_role role u = record u { role = role; is_admin = is_admin_role role }

-- `none` is a role that is not in VALID_ROLES.
unfoldable pub set_role : ℕ → Option Role → Db → Response Db
unfolding get_user change_user
set_role id none db = err HttpError.invalid_role
set_role id (some role) db = do
  u ← or_not_found (get_user id db)
  ok (change_user id (with_role role) db)

unfoldable pub reset_password : Passwords → Text → ℕ → Text → Db → Response Db
unfolding get_user change_user
reset_password P salt id password db = do
  raise_if (is_empty password) HttpError.password_required
  u ← or_not_found (get_user id db)
  ok (change_user id (λ u. record u { password_hash = P.hash salt password }) db)

-- `if not u or not check_password_hash(...): raise 401`
abbrev pub checked_user : Passwords → Text → Option User → Response User
checked_user P password none = err HttpError.unauthorized
checked_user P password (some u) =
    if P.check u.password_hash password then ok u else err HttpError.unauthorized

-- The user that logs in, and the database with the time of the login.
unfoldable pub verify_credentials : Passwords → ℕ → Text → Text → Db → Response (User × Db)
unfolding user_named change_user
verify_credentials P now username password db = do
  u ← checked_user P password (user_named username db)
  ok (u, change_user u.id (λ u. record u { last_login = some now }) db)

-- `check_has_users`
unfoldable pub check_has_users : Db → Bool
check_has_users db = ltb 0 (length db.users)
