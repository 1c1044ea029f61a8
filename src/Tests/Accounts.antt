-- ===== src/Tests/Accounts.antt =====
-- app/user_manager.py at concrete inputs.
use all_debrid_proxy.Base.{◌≡◌, refl, true, none, some, [], codes, text_eq, text_eq_refl}
use all_debrid_proxy.Constants.{Role}
use all_debrid_proxy.Models.{User}
use all_debrid_proxy.Api.Users
use all_debrid_proxy.Api.Users.{
  Passwords, CreateUserRequest, new_user, add_user, get_user, change_user, verify_credentials,
  reset_password,
}
use all_debrid_proxy.UserManager.{create_user}
use all_debrid_proxy.UserManager.Laws.{created_response, create_user-agrees}
use all_debrid_proxy.Tests.Data.{empty_db}

-- A hash that is the password itself.
abbrev shown : Passwords
shown = record {
  hash = λ salt password. password;
  check = λ hash password. text_eq hash password;
  check-hash = λ salt password. text_eq_refl password;
}

abbrev bob_request : CreateUserRequest
bob_request = record { username = codes "bob"; password = codes "pw"; is_admin = true; role = none }

abbrev bob : User
bob = new_user shown [] 4 8 bob_request Role.admin

create_user-agrees_example :
    Users.create_user shown [] 4 8 bob_request empty_db
    ≡ created_response
        (create_user shown [] 4 8 (codes "bob") (codes "pw") true (some Role.admin) empty_db)
create_user-agrees_example =
    create_user-agrees shown [] 4 8 bob_request Role.admin empty_db refl refl refl
