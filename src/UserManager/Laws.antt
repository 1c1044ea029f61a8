-- ===== src/UserManager/Laws.antt =====
-- app/user_manager.py against the other code that changes users and statistics: the handlers of
-- app/api.py and the monitor of worker/worker.py.
use all_debrid_proxy.Base.{
  ℕ, ◌+◌, ◌≡◌, refl, ap, ◌∙◌, Bool, true, false, not, Option, none, some, arith, ◌==◌, Bool-cases,
  inl, inr, Text, is_empty, Result, ok, err, ◌>>=◌, ◌>>◌, raise_if,
}
use all_debrid_proxy.Constants.{Role}
use all_debrid_proxy.Models.{Db, User, UserStats, update_first}
use all_debrid_proxy.Models.Rows.{update_first-update_first}
use all_debrid_proxy.Api.Errors.{HttpError, Response}
use all_debrid_proxy.Api.Users
use all_debrid_proxy.Api.Users.{
  Passwords, CreateUserRequest, requested_role, get_user, user_named, is_taken, checked_user,
  or_not_found, change_user, add_user, new_user, verify_credentials, reset_password,
}
use all_debrid_proxy.Worker.Monitor.{count_download}
use all_debrid_proxy.UserManager.{
  ValueError, user_row, create_user, log_in, verify_user, stats_row, count_up, update_user_stats,
  update_user_password, toggle_admin, set_role, delete_user,
}

-- The response that a handler gives for a result of `create_user`.
abbrev pub created_response : Result ValueError (User × Db) → Response Db
created_response (ok (u, db)) = ok db
created_response (err ValueError.unknown_role) = err HttpError.invalid_role
created_response (err ValueError.user_exists) = err HttpError.conflict

-- For a request with a username, a password and a role, the handler that creates an account does what
-- `create_user` of the module does with them.
pub create_user-agrees :
    (P : Passwords) (salt : Text) (id now : ℕ) (req : CreateUserRequest) (role : Role) (db : Db)
    → is_empty req.username ≡ false
    → is_empty req.password ≡ false
    → requested_role req ≡ ok role
    → Users.create_user P salt id now req db
      ≡ created_response
          (create_user P salt id now req.username req.password req.is_admin (some role) db)
unfolding create_user Users.create_user
create_user-agrees P salt id now req role db name password asked =
    rw (name, password, asked) (free (is_taken (user_named req.username db)))
  where
    free :
        (taken : Bool)
        → ((raise_if taken HttpError.conflict)
            >> ok (add_user (new_user P salt id now req role) db))
          ≡ created_response (
              (raise_if taken ValueError.user_exists)
              >> (let u = user_row P salt id now req.username req.password role in
                  ok (u, add_user u db)))
    free true = refl
    free false = refl

-- The response that a handler gives for a result of `verify_user`, with the database that is left.
abbrev pub login_response : Option User × Db → Response Db
login_response (none, db) = err HttpError.unauthorized
login_response (some u, db) = ok db

-- The login handler accepts exactly the credentials that `verify_user` accepts, and leaves the same
-- database.
verify_user-agrees :
    (P : Passwords) (now : ℕ) (username password : Text) (db : Db)
    → (verify_credentials P now username password db >>= λ (p : User × Db). ok p.1)
      ≡ login_response (verify_user P now username password db)
unfolding verify_credentials verify_user
verify_user-agrees P now username password db = by_user (user_named username db)
  where
    by_user :
        (o : Option User)
        → ((checked_user P password o >>= λ u.
              ok (u, change_user u.id (λ v. record v { last_login = some now }) db))
            >>= λ (p : User × Db). ok p.1)
          ≡ login_response (log_in P now password o db)
    by_user none = refl
    by_user (some u) = elim (Bool-cases (P.check u.password_hash password)) [
      | inl e ↦ rw e refl
      | inr e ↦ rw e refl
    ]

-- Two updates of a user's statistics are one with the sums.
update_user_stats-update_user_stats :
    (id d m b d' m' b' : ℕ) (db : Db)
    → update_user_stats id d' m' b' (update_user_stats id d m b db)
      ≡ update_user_stats id (d + d') (m + m') (b + b') db
unfolding update_user_stats
update_user_stats-update_user_stats id d m b d' m' b' db =
    ap (λ ss. record db { stats = ss })
      (update_first-update_first (stats_row id) (count_up d m b) (count_up d' m' b') db.stats
          (λ x h. h)
        ∙ ap (λ f. update_first (stats_row id) f db.stats) (λ i s. sums s i))
  where
    sums :
        (s : UserStats)
        → count_up d' m' b' (count_up d m b s) ≡ count_up (d + d') (m + m') (b + b') s
    sums s =
        let downloads : s.total_downloads + d + d' ≡ s.total_downloads + (d + d') = omega arith in
        let magnets : s.total_magnets_processed + m + m' ≡ s.total_magnets_processed + (m + m') =
          omega arith in
        let bytes : s.total_bytes_downloaded + b + b' ≡ s.total_bytes_downloaded + (b + b') =
          omega arith in
        λ i. record {
          user_id = s.user_id;
          total_downloads = downloads i;
          total_magnets_processed = magnets i;
          total_bytes_downloaded = bytes i;
        }

-- What the monitor does when a file of a user is done is `update_user_stats` with one download and the
-- bytes of the file.
update_user_stats-agrees :
    (user bytes : ℕ) (db : Db)
    → (user == 0) ≡ false
    → record db { stats = count_download (some user) bytes db.stats }
      ≡ update_user_stats user 1 0 bytes db
unfolding update_user_stats
update_user_stats-agrees user bytes db h =
    rw (h, count_download)
      (ap (λ f. record db { stats = update_first (stats_row user) f db.stats })
        (λ i s. one_download s i))
  where
    one_download :
        (s : UserStats)
        → record s {
          total_downloads = s.total_downloads + 1;
          total_bytes_downloaded = s.total_bytes_downloaded + bytes;
        }
          ≡ count_up 1 0 bytes s
    one_download s =
        let magnets : s.total_magnets_processed ≡ s.total_magnets_processed + 0 = omega arith in
        λ i. record {
          user_id = s.user_id;
          total_downloads = s.total_downloads + 1;
          total_magnets_processed = magnets i;
          total_bytes_downloaded = s.total_bytes_downloaded + bytes;
        }

-- For a user that exists, toggling the flag, giving a role, and setting a password that is not empty do
-- the same through the API as through the module; both delete the same rows.
changes-agree :
    (P : Passwords) (salt : Text) (id : ℕ) (role : Role) (password : Text) (u : User) (db : Db)
    → get_user id db ≡ some u
    → is_empty password ≡ false
    → (Users.toggle_admin id db ≡ ok (toggle_admin id db).1)
      × ((toggle_admin id db).0 ≡ not u.is_admin)
      × (set_role id (some role) db ≡ ok (some role, change_user id (Users.with_role role) db))
      × (Users.set_role id (some role) db ≡ ok (change_user id (Users.with_role role) db))
      × (reset_password P salt id password db ≡ ok (update_user_password P salt id password db))
      × (Users.delete_user id db ≡ delete_user id db)
unfolding toggle_admin set_role update_user_password delete_user reset_password Users.toggle_admin
    Users.set_role Users.delete_user
changes-agree P salt id role password u db found filled =
    rw (found, filled, toggle_admin, update_user_password, delete_user, Users.delete_user)
      (refl, refl, refl, refl, refl, refl)
