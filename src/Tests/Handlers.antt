-- ===== src/Tests/Handlers.antt =====
-- The handlers of the API at concrete inputs.
use all_debrid_proxy.Base.{
  ℕ, zero, suc, ◌+◌, ◌≤◌, ◌≡◌, ◌≢◌, refl, Bool, true, false, Option, none, some, List, [], ◌∷◌, map,
  arith, Text, text_eq, codes, All, ok, err, ◌>>=◌, count_if,
}
use all_debrid_proxy.Base.Unicode.{ascii_only}
use all_debrid_proxy.Constants.{Status, FileState, Mode, SourceType, Role}
use all_debrid_proxy.Models.{Db, Task, User, get_task}
use all_debrid_proxy.World.{World, move_task}
use all_debrid_proxy.Validation.Ids.{validate_task_id}
use all_debrid_proxy.Validation.Names.{validate_label}
use all_debrid_proxy.Api.Errors.{HttpError}
use all_debrid_proxy.Api.Tasks.{
  CreateTaskRequest, Checked, Created, check_request, create_task, select_row, select_files,
  delete_task, insert_task, new_task,
}
use all_debrid_proxy.Api.Tasks.Create.{
  IsDeduplicated, create_task-again, create_task-IsDeduplicated,
}
use all_debrid_proxy.Api.Tasks.Laws.{
  IsChosen, RowByRow, select_files_once, IsRemoved, delete_task-IsRemoved,
}
use all_debrid_proxy.Api.Users.{
  Passwords, CreateUserRequest, create_user, new_user, delete_user, add_user,
}
use all_debrid_proxy.Api.Users.Laws
use all_debrid_proxy.Api.Users.Laws.{IsConsistent, Run-IsConsistent}
use all_debrid_proxy.Tests.Data.{
  library, task_id, source, a_task, a_file, first_id, second_id, a_world, empty_db,
}

-- A hash that is the password itself.
abbrev plain : Passwords
plain = record {
  hash = λ salt password. password;
  check = λ hash password. text_eq hash password;
  check-hash = λ salt password. all_debrid_proxy.Base.text_eq_refl password;
}

abbrev member_request : CreateUserRequest
member_request = record {
  username = codes "ann";
  password = codes "pw";
  is_admin = false;
  role = some (some Role.member);
}

abbrev ann : User
ann = new_user plain [] 3 8 member_request Role.member

abbrev with_ann : Db
with_ann = add_user ann empty_db

ann_created : create_user plain [] 3 8 member_request empty_db ≡ ok with_ann
unfolding create_user
ann_created = refl

Run-IsConsistent_example : IsConsistent (delete_user 3 with_ann)
Run-IsConsistent_example =
    Run-IsConsistent
      (Laws.next (Laws.next Laws.here (Laws.create [] 3 8 member_request ann_created))
        (Laws.delete 3))
      (record { in_sync = tt; unique = tt })

abbrev waiting_task : Task
waiting_task = a_task Mode.select SourceType.link Status.waiting_selection

abbrev waiting_world : World
waiting_world =
    a_world waiting_task
      (a_file first_id 0 FileState.listed ∷ a_file second_id 1 FileState.listed ∷ [])

abbrev selected_first : World
selected_first = move_task task_id Status.downloading none (record waiting_world {
  db = record waiting_world.db {
    files = map (select_row task_id (first_id ∷ [])) waiting_world.db.files;
  };
})

first_selected : select_files ascii_only task_id (first_id ∷ []) waiting_world ≡ ok selected_first
unfolding select_files
first_selected = refl

select_files_once_example :
    (id : Text) × (t : Task) × (validate_task_id ascii_only task_id ≡ ok id)
    × (get_task id waiting_world.db ≡ some t)
    × (t.mode ≡ Mode.select)
    × (t.status ≡ Status.waiting_selection)
    × RowByRow (IsChosen id (first_id ∷ [])) waiting_world.db.files selected_first.db.files
    × (get_task id selected_first.db ≡ some (record t { status = Status.downloading }))
    × ((j : Text) → id ≢ j → get_task j selected_first.db ≡ get_task j waiting_world.db)
    × (select_files ascii_only task_id (second_id ∷ []) selected_first ≡ err HttpError.not_waiting)
select_files_once_example =
    select_files_once ascii_only task_id (first_id ∷ []) (second_id ∷ []) waiting_world
      selected_first first_selected

id_valid : validate_task_id ascii_only task_id ≡ ok task_id
unfolding validate_task_id
id_valid = refl

waiting_found : get_task task_id waiting_world.db ≡ some waiting_task
unfolding get_task text_eq
waiting_found = refl

delete_task-IsRemoved_example :
    (w' : World) × (delete_task ascii_only task_id waiting_world ≡ ok w')
    × IsRemoved task_id waiting_world w'
delete_task-IsRemoved_example =
    delete_task-IsRemoved ascii_only task_id task_id waiting_task waiting_world id_valid
      waiting_found

-- A digest that is the text itself, and URLs that are not read.
abbrev link_request : CreateTaskRequest
link_request = record {
  mode = Mode.auto;
  source = source;
  label = some (codes "A film");
  user_id = none;
}

abbrev link_checked : Checked
link_checked = record {
  source = source;
  source_type = SourceType.link;
  identifier = source;
  label = some (codes "A film");
  user_id = none;
}

link_accepted : check_request library link_request ≡ ok link_checked
unfolding check_request validate_label
link_accepted = refl

abbrev empty_world : World
empty_world = record { db = empty_db; events = [] }

-- The first request for the link creates a task.
abbrev served_once : World
served_once = insert_task (new_task library link_request link_checked (codes "n1") 3) empty_world

abbrev created_once : Created
created_once = record { task_id = codes "n1"; status = Status.queued; reused = false }

link_served :
    create_task library (codes "n1") 3 link_request empty_world ≡ ok (created_once, served_once)
unfolding create_task insert_task validate_label
link_served = refl

create_task-again_example :
    (d' : Created) × (create_task library (codes "n2") 4 link_request served_once
      ≡ ok (d', served_once))
    × (d'.reused ≡ true)
create_task-again_example =
    create_task-again library (codes "n1") (codes "n2") 3 4 link_request link_request empty_world
      served_once created_once link_checked link_checked link_accepted link_accepted refl refl
      link_served

create_task-IsDeduplicated_example : IsDeduplicated served_once
create_task-IsDeduplicated_example =
    create_task-IsDeduplicated library (codes "n1") 3 link_request empty_world served_once
      created_once (record { single = λ i t. omega arith }) link_served
