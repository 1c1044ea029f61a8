-- ===== src/Frontend/Login.antt =====
-- The login of frontend/app.py with its rate limit, and the first-time setup, on top of the user handlers of
-- app/api.py. `csrf` is what `_validate_csrf` finds: the submitted token and that of the session.
pub mod Limit
pub mod Setup
use all_debrid_proxy.Base.{
  ℕ, ◌+◌, Bool, true, false, not, ◌||◌, Option, none, some, List, [], ◌∷◌, ◌++◌, ltb, leb,
  if◌then◌else◌, Text, is_empty, text_eq, strip, filter, length, Result, ok, err, ◌>>=◌, ◌>>◌,
  raise_if,
}
use all_debrid_proxy.Models.{Db, User}
use all_debrid_proxy.Api.Errors.{HttpError, Response}
use all_debrid_proxy.Api.Users
use all_debrid_proxy.Api.Users.{Passwords, CreateUserRequest, check_has_users, verify_credentials}

-- `_LOGIN_WINDOW` and `_LOGIN_MAX_ATTEMPTS`
abbrev pub login_window : ℕ
login_window = 300

abbrev pub login_max_attempts : ℕ
login_max_attempts = 20

-- `_login_attempts` of one process, each of which has its own; an address without an entry has no attempts.
abbrev pub Attempts : Type 0
Attempts = Text → List ℕ

-- `t > window_start`
abbrev pub is_recent : ℕ → ℕ → Bool
is_recent now t = ltb now (t + login_window)

abbrev pub save : Text → List ℕ → Attempts → Attempts
unfolding text_eq
save ip ts attempts = λ other. if text_eq other ip then ts else attempts other

-- What the login aborts with.
pub data Aborted : Type 0 where
  invalid_csrf : Aborted
  too_many_attempts : Aborted

-- `_login_rate_check`, for the requests that one process handles one after the other: the dictionary has no lock
-- and is not shared.
unfoldable pub login_rate_check : Text → ℕ → Attempts → Result Aborted Attempts
unfolding text_eq
login_rate_check ip now attempts =
    let recent = filter (is_recent now) (attempts ip) in
    if leb login_max_attempts (length recent)
    then err Aborted.too_many_attempts
    else ok (save ip (recent ++ (now ∷ [])) attempts)

pub record Csrf : Type 0 where
  pub token : Option Text
  pub expected : Option Text

-- `not token or not expected or not secrets.compare_digest(token, expected)`, where the header stands in
-- for a form field that is absent or empty
unfoldable pub is_csrf_valid : Csrf → Bool
unfolding text_eq
is_csrf_valid csrf = elim csrf.token [
  | some (c ∷ token) ↦ elim csrf.expected [
    | some expected ↦ text_eq (c ∷ token) expected
    | none ↦ false
  ]
  | _ ↦ false
]

-- Where a POST leads: back to the form, to the login after the setup, or in as a user.
pub data Page : Type 0 where
  form : Page
  login : Page
  index : User → Page

abbrev pub setup_page : Db → Response Db → Page × Db
setup_page db (ok new) = (Page.login, new)
setup_page db (err e) = (Page.form, db)

abbrev pub login_page : Db → Response (User × Db) → Page × Db
login_page db (ok (u, new)) = (Page.index u, new)
login_page db (err e) = (Page.form, db)

abbrev pub setup_request : Text → Text → CreateUserRequest
setup_request username password = record {
  username = username;
  password = password;
  is_admin = true;
  role = none;
}

-- The part with credentials that are not empty; `salt`, `id` and `now` are for the row of a first user.
unfoldable pub sign_in : Passwords → Text → ℕ → ℕ → Text → Text → Db → Page × Db
unfolding check_has_users Users.create_user verify_credentials
sign_in P salt id now username password db =
    if check_has_users db
    then login_page db (verify_credentials P now username password db)
    else setup_page db (Users.create_user P salt id now (setup_request username password) db)

abbrev pub sign_in_unless_empty : Passwords → Text → ℕ → ℕ → Text → Text → Db → Page × Db
unfolding sign_in
sign_in_unless_empty P salt id now username password db =
    let done = sign_in P salt id now username password db in
    if is_empty username || is_empty password then (Page.form, db) else done

pub record Site : Type 0 where
  pub attempts : Attempts
  pub db : Db

-- `login` for a POST
unfoldable pub login_post :
    Passwords → Text → ℕ → Csrf → Text → ℕ → Text → Text → Site → Result Aborted (Page × Site)
unfolding is_csrf_valid login_rate_check sign_in strip
login_post P salt id csrf ip now username password s = do
  raise_if (not (is_csrf_valid csrf)) Aborted.invalid_csrf
  attempts ← login_rate_check ip now s.attempts
  let done = sign_in_unless_empty P salt id now (strip username) (strip password) s.db
  ok (done.0, record { attempts = attempts; db = done.1 })
