-- ===== src/Tests/Downloads.antt =====
-- Starting, watching and selecting downloads at concrete inputs.
use all_debrid_proxy.Base.{
  ◌+◌, ◌*◌, ◌≤◌, ◌≡◌, codes, false, refl, ◌⊎◌, max, true, ◌&&◌, some, [], ◌∷◌, arith, leb,
  if◌then◌else◌, text_eq, All, count_if,
}
use all_debrid_proxy.Base.Unicode.{ascii_only}
use all_debrid_proxy.Constants.{Status, FileState, Mode, SourceType}
use all_debrid_proxy.Models.{
  set_status, update_file, has_task_id, Task, TaskFile, get_file, get_task, files_of,
}
use all_debrid_proxy.World.{World}
use all_debrid_proxy.Validation.Names.{validate_file_name}
use all_debrid_proxy.Scheduler.{count_active_and_queued, can_start_task, task_total_size, low_floor}
use all_debrid_proxy.Scheduler.Space.{reserved_elsewhere, can_start_task-eq}
use all_debrid_proxy.Worker.Start.{start_next_files, all_done}
use all_debrid_proxy.Worker.Loop.{Inputs, start_active}
use all_debrid_proxy.Worker.Finished.{has_room}
use all_debrid_proxy.Worker.Finished.Pass.{start_active-done}
use all_debrid_proxy.Worker.Start.Limits.{downloads_of, start_next_files-limit}
use all_debrid_proxy.Worker.Monitor.{monitor_file, name_is_valid}
use all_debrid_proxy.Worker.Monitor.Laws.{IsComplete, IsFinished, monitor_file_lem}
use all_debrid_proxy.Worker.Skipped.{
  NotReady, IsStuck, HasUniqueIds, here, next, start, monitor, resolve,
}
use all_debrid_proxy.Worker.Resolve.{resolve_task, finish_resolve}
use all_debrid_proxy.Worker.Skipped.Runs.{never_ready}
use all_debrid_proxy.Tests.Data.{
  task_id, a_task, a_file, first_id, second_id, a_world, settings, client, floats, finished,
}

abbrev downloading_task : Task
downloading_task = a_task Mode.select SourceType.link Status.downloading

-- One file was selected, the other was left out.
abbrev half_selected : World
half_selected =
    a_world downloading_task
      (a_file first_id 0 FileState.selected ∷ a_file second_id 1 FileState.listed ∷ [])

abbrev half_started : World
half_started = start_next_files settings client true 5 downloading_task half_selected

half_selected-IsStuck : IsStuck second_id task_id half_selected
unfolding get_file text_eq
half_selected-IsStuck = record {
  behind = record {
    left = record {
      row = a_file second_id 1 FileState.listed;
      found = refl;
      owned = refl;
      not_selected = refl;
      not_downloading = refl;
      not_done = refl;
    };
    not_ready = (refl, tt);
  };
  unique = ((refl, tt), (tt, tt));
}

-- Another task, which the worker visits later.
abbrev later_task : Task
later_task = record downloading_task { id = codes "later" }

later_apart : text_eq later_task.id task_id ≡ false
unfolding text_eq
later_apart = refl

abbrev monitored : World
monitored = monitor_file ascii_only floats finished first_id half_started

abbrev others_resolved : World
others_resolved = resolve_task ascii_only (λ n. codes "n") client (λ n w. w) later_task monitored

others_resolved-HasUniqueIds : HasUniqueIds others_resolved
unfolding start_next_files monitor_file resolve_task text_eq finish_resolve set_status
    count_active_and_queued update_file
others_resolved-HasUniqueIds = ((refl, (refl, tt)), ((refl, tt), (tt, tt)))

never_ready_example : All (NotReady task_id) others_resolved.db.tasks
never_ready_example =
    never_ready
      (next
        (next (next here (start half_selected settings client true 5 downloading_task))
          (monitor half_started ascii_only floats finished first_id))
        (resolve monitored ascii_only (λ n. codes "n") client (λ n w. w) later_task later_apart
          (λ n v. here) others_resolved-HasUniqueIds))
      half_selected-IsStuck

start_next_files-limit_example :
    downloads_of task_id half_started.db ≤ max (downloads_of task_id half_selected.db) 2
start_next_files-limit_example =
    start_next_files-limit settings client true 5 downloading_task half_selected

abbrev one_running : World
one_running =
    a_world downloading_task
      (a_file first_id 0 FileState.downloading ∷ a_file second_id 1 FileState.listed ∷ [])

found_first :
    get_file first_id one_running.db.files ≡ some (a_file first_id 0 FileState.downloading)
unfolding get_file text_eq
found_first = refl

first_valid : name_is_valid ascii_only (a_file first_id 0 FileState.downloading) ≡ true
unfolding validate_file_name
first_valid = refl

monitor_file_lem_example :
    (g : TaskFile) × (get_file first_id
        (monitor_file ascii_only floats finished first_id one_running).db.files
      ≡ some g)
    × (g.progress_pct ≤ 100)
    × ((IsComplete finished (a_file first_id 0 FileState.downloading)
          × IsFinished finished (a_file first_id 0 FileState.downloading) g)
        ⊎ ((¬ IsComplete finished (a_file first_id 0 FileState.downloading))
            × (g.state ≡ FileState.downloading)))
monitor_file_lem_example =
    monitor_file_lem ascii_only floats finished first_id (a_file first_id 0 FileState.downloading)
      one_running found_first refl (omega arith) first_valid

one_row : count_if (has_task_id task_id) one_running.db.tasks ≡ 1
unfolding text_eq
one_row = refl

can_start_task-eq_example : can_start_task settings 5 task_id one_running.db ≡ (
    leb (reserved_elsewhere task_id one_running.db + task_total_size task_id one_running.db) 5
    && leb (low_floor settings) 5)
can_start_task-eq_example = can_start_task-eq settings 5 task_id one_running.db one_row

-- A task with one file, which is DONE, on a disk with little room.
abbrev done_world : World
done_world = a_world downloading_task (a_file first_id 0 FileState.done ∷ [])

abbrev inputs : Inputs
inputs = record {
  unicode = ascii_only;
  settings = settings;
  client = client;
  new_id = λ id n. first_id;
  elsewhere = λ id n w. w;
  free = λ id. 1024 * 1024 * 1024;
  writable = λ id. true;
  now = 5;
}

done_found : get_task task_id done_world.db ≡ some downloading_task
unfolding get_task text_eq
done_found = refl

done_all : all_done (files_of task_id done_world.db) ≡ true
unfolding files_of text_eq
done_all = refl

start_active-done_example :
    get_task task_id (start_active inputs (downloading_task ∷ later_task ∷ []) done_world).db
    ≡ some (record downloading_task {
      status =
          if has_room settings (1024 * 1024 * 1024) task_id done_world.db
          then (if inputs.writable task_id then Status.ready else Status.failed)
          else Status.downloading;
    })
start_active-done_example =
    start_active-done inputs downloading_task (later_task ∷ []) done_world (later_apart, tt)
      done_found refl done_all (omega arith) (omega arith)
