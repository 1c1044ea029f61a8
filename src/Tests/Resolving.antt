-- ===== src/Tests/Resolving.antt =====
-- Resolving and cleaning up tasks at concrete inputs.
use all_debrid_proxy.Base.{
  ℕ, zero, suc, ◌+◌, ◌<◌, ◌≡◌, refl, true, none, some, List, [], ◌∷◌, arith, Text, text_eq, codes,
  All,
}
use all_debrid_proxy.Base.Unicode.{ascii_only}
use all_debrid_proxy.Constants.{Status, FileState, Mode, SourceType}
use all_debrid_proxy.Models.{Task, get_task}
use all_debrid_proxy.World.{World, move_task}
use all_debrid_proxy.Validation.Names.{validate_file_name}
use all_debrid_proxy.Worker.Client.{FileInfo}
use all_debrid_proxy.Worker.Resolve.{list_found, resolve_task}
use all_debrid_proxy.Worker.Resolve.Laws.{
  IsSettled, resolve_task-IsSettled, is_empty_round, HasValidName, list_found-HasValidName,
}
use all_debrid_proxy.Worker.Cleanup.{cleanup_cycle}
use all_debrid_proxy.Worker.Cleanup.Laws.{cleanup_cycle-keeps_live}
use all_debrid_proxy.Tests.Data.{task_id, a_task, a_file, first_id, a_world, client}

abbrev new_file_id : ℕ → Text
new_file_id i = codes "f"

abbrev queued_magnet : Task
queued_magnet = a_task Mode.auto SourceType.magnet Status.queued

abbrev queued_world : World
queued_world = a_world queued_magnet []

-- In the first round somebody cancels the task.
abbrev cancels : ℕ → World → World
cancels zero w = move_task task_id Status.canceled none w
cancels (suc n) w = w

resolve_task-IsSettled_example :
    IsSettled task_id
      (resolve_task ascii_only new_file_id client cancels queued_magnet queued_world)
resolve_task-IsSettled_example =
    resolve_task-IsSettled ascii_only new_file_id client cancels queued_magnet queued_world

first_round_empty :
    (j : ℕ)
    → j < 1
    → is_empty_round ascii_only new_file_id client cancels task_id none (0 + j) ≡ true
first_round_empty zero lt = refl
first_round_empty (suc j) lt = ground arith

abbrev two_files : List FileInfo
two_files =
    record { name = codes "b.mkv"; size = 1 } ∷ record { name = codes "../c"; size = 2 } ∷ []

abbrev listed_world : World
listed_world = a_world queued_magnet (a_file first_id 0 FileState.listed ∷ [])

listed_world-HasValidName : All (HasValidName ascii_only) listed_world.db.files
unfolding validate_file_name
listed_world-HasValidName = (refl, tt)

list_found-HasValidName_example :
    All
      (HasValidName ascii_only)
      (list_found ascii_only new_file_id task_id two_files listed_world).db.files
list_found-HasValidName_example =
    list_found-HasValidName ascii_only new_file_id task_id two_files listed_world
      listed_world-HasValidName

queued_found : get_task task_id queued_world.db ≡ some queued_magnet
unfolding get_task text_eq
queued_found = refl

cleanup_cycle-keeps_live_example :
    get_task task_id (cleanup_cycle 10 1000 true queued_world).db ≡ some queued_magnet
cleanup_cycle-keeps_live_example =
    cleanup_cycle-keeps_live 10 1000 true task_id queued_magnet queued_world queued_found refl
