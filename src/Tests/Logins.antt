-- ===== src/Tests/Logins.antt =====
-- The login of the web interface at concrete inputs.
use all_debrid_proxy.Base.{
  ◌≤◌, ◌≡◌, refl, true, List, [], ◌∷◌, arith, Text, codes, text_eq, text_eq_refl, count_if,
}
use all_debrid_proxy.Models.{Db}
use all_debrid_proxy.Api.Users.{Passwords, add_user, check_has_users}
use all_debrid_proxy.Frontend.Login.{Page, login_max_attempts, sign_in}
use all_debrid_proxy.Frontend.Login.Limit.{Request, is_counted, passed, passed-limit}
use all_debrid_proxy.Frontend.Login.Setup.{
  but_logins, first_admin, sign_in-accounts, sign_in-first_admin,
}
use all_debrid_proxy.Tests.Data.{empty_db}

-- A hash that is the password itself.
abbrev plain : Passwords
plain = record {
  hash = λ salt password. password;
  check = λ hash password. text_eq hash password;
  check-hash = λ salt password. text_eq_refl password;
}

abbrev home : Text
home = codes "10.0.0.1"

abbrev two_requests : List Request
two_requests = (home, 9) ∷ (home, 4) ∷ []

passed-limit_example : count_if (is_counted home 10) (passed two_requests) ≤ login_max_attempts
passed-limit_example = passed-limit home 10 two_requests (omega arith, (omega arith, tt))

sign_in-first_admin_example :
    let first = sign_in plain [] 1 5 (codes "ann") (codes "pw") empty_db in
    let second = sign_in plain [] 2 6 (codes "ann") (codes "pw") first.1 in
    (first.0 ≡ Page.login)
    × (second.0 ≡ Page.index (first_admin plain [] 1 5 (codes "ann") (codes "pw")))
sign_in-first_admin_example =
    sign_in-first_admin plain [] [] 1 2 5 6 (codes "ann") (codes "pw") empty_db refl refl

abbrev with_admin : Db
with_admin = add_user (first_admin plain [] 1 5 (codes "ann") (codes "pw")) empty_db

has_admin : check_has_users with_admin ≡ true
unfolding check_has_users
has_admin = refl

sign_in-accounts_example :
    but_logins (sign_in plain [] 2 6 (codes "bob") (codes "pw") with_admin).1
    ≡ but_logins with_admin
sign_in-accounts_example =
    sign_in-accounts plain [] 2 6 (codes "bob") (codes "pw") with_admin has_admin
