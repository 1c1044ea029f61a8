-- ===== src/UserManager.antt =====
-- app/user_manager.py: the user operations for callers beside the API. Loading attributes before a
-- session ends is left out, and so is `updated_at` of the statistics, which nothing reads.
pub mod Laws
use all_debrid_proxy.Base.{
  ℕ, ◌+◌, Bool, true, false, not, Option, none, some, List, [], ◌∷◌, ltb, length, ◌==◌,
  if◌then◌else◌, Text, Result, ok, err, ◌>>=◌, ◌>>◌, raise_if,
}
use all_debrid_proxy.Constants
use all_debrid_proxy.Constants.{Role, is_admin_role}
use all_debrid_proxy.Models.{Db, User, UserStats, update_first}
use all_debrid_proxy.Api.Users.{
  Passwords, get_user, user_named, change_user, remove_user, add_user, is_taken, toggled, with_role,
}

-- The `ValueError`s of the module.
pub data ValueError : Type 0 where
  unknown_role user_exists : ValueError

abbrev pub valid_role : Option Role → Result ValueError Role
valid_role none = err ValueError.unknown_role
valid_role (some role) = ok role

-- The row of a new user, whose flag follows from the role.
abbrev pub user_row : Passwords → Text → ℕ → ℕ → Text → Text → Role → User
user_row P salt id now username password role = record {
  id = id;
  username = username;
  password_hash = P.hash salt password;
  is_admin = is_admin_role role;
  role = role;
  created_at = now;
  last_login = none;
}

-- `role` is `none` where the text is no role. The argument `is_admin` is not used.
unfoldable pub create_user :
    Passwords → Text → ℕ → ℕ → Text → Text → Bool → Option Role → Db → Result ValueError (User × Db)
unfolding user_named
create_user P salt id now username password is_admin role db = do
  r ← valid_role role
  raise_if (is_taken (user_named username db)) ValueError.user_exists
  let u = user_row P salt id now username password r
  ok (u, add_user u db)

-- `if user and check_password_hash(...)`, with the time of the login
abbrev pub log_in : Passwords → ℕ → Text → Option User → Db → Option User × Db
log_in P now password none db = (none, db)
log_in P now password (some u) db =
    if P.check u.password_hash password
    then (
      some (record u { last_login = some now }),
      change_user u.id (λ v. record v { last_login = some now }) db,
    )
    else (none, db)

unfoldable pub verify_user : Passwords → ℕ → Text → Text → Db → Option User × Db
unfolding user_named change_user
verify_user P now username password db = log_in P now password (user_named username db) db

unfoldable pub has_any_users : Db → Bool
has_any_users db = ltb 0 (length db.users)

abbrev pub stats_row : ℕ → UserStats → Bool
stats_row id s = s.user_id == id

-- The increments of downloads, magnets and bytes.
abbrev pub count_up : ℕ → ℕ → ℕ → UserStats → UserStats
count_up downloads magnets bytes s = record s {
  total_downloads = s.total_downloads + downloads;
  total_magnets_processed = s.total_magnets_processed + magnets;
  total_bytes_downloaded = s.total_bytes_downloaded + bytes;
}

unfoldable pub update_user_stats : ℕ → ℕ → ℕ → ℕ → Db → Db
unfolding update_first
update_user_stats id downloads magnets bytes db = record db {
  stats = update_first (stats_row id) (count_up downloads magnets bytes) db.stats;
}

unfoldable pub update_user_password : Passwords → Text → ℕ → Text → Db → Db
unfolding get_user change_user
update_user_password P salt id password db = elim (get_user id db) [
  | none ↦ db
  | some u ↦ change_user id (λ v. record v { password_hash = P.hash salt password }) db
]

unfoldable pub delete_user : ℕ → Db → Db
unfolding get_user remove_user
delete_user id db = elim (get_user id db) [ none ↦ db | some u ↦ remove_user id db ]

-- The new flag, or False for no user.
unfoldable pub toggle_admin : ℕ → Db → Bool × Db
unfolding get_user change_user
toggle_admin id db = elim (get_user id db) [
  | none ↦ (false, db)
  | some u ↦ (not u.is_admin, change_user id toggled db)
]

-- The new role, or None for no user.
unfoldable pub set_role : ℕ → Option Role → Db → Result ValueError (Option Role × Db)
unfolding get_user change_user
set_role id role db = do
  r ← valid_role role
  ok (elim (get_user id db) [
    | none ↦ (none, db)
    | some u ↦ (some r, change_user id (with_role r) db)
  ])
