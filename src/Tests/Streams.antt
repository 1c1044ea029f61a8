-- ===== src/Tests/Streams.antt =====
-- The readers of the API, the event stream, its tokens and the uploads at concrete inputs.
use all_debrid_proxy.Base.{
  ◌≡◌, filter, refl, true, none, some, [], ◌∷◌, ◌++◌, arith, Text, text_eq, codes, All, any, length,
  count_if, pos, ok,
}
use all_debrid_proxy.Base.Unicode.{ascii_only}
use all_debrid_proxy.Base.Sorting.{IsSorted}
use all_debrid_proxy.Constants.{Status, FileState, Mode, SourceType}
use all_debrid_proxy.Models.{Db, Task, has_task_id, files_of}
use all_debrid_proxy.Scheduler.{reserved_bytes_for_task, global_reserved_bytes}
use all_debrid_proxy.Provider.Values.{Json, Items, Fields, get}
use all_debrid_proxy.Auth.{generate_sse_token, verify_sse_access}
use all_debrid_proxy.Auth.Tokens.{Issue, is_open, memory, issue_all, verify_sse_access-is_open}
use all_debrid_proxy.Api.Tasks.Readers.{StatusFilter, TaskPage, list_tasks, task_to_response}
use all_debrid_proxy.Api.Tasks.Readers.Pages.{
  newest_first, is_asked, HasOwnTimes, pages, list_tasks-pages,
}
use all_debrid_proxy.Api.Tasks.Readers.Reserved.{IsWithin, task_to_response-reserved}
use all_debrid_proxy.Api.Stats.{get_system_stats}
use all_debrid_proxy.Api.Stats.Laws.{HasOneTask, get_system_stats-reserved}
use all_debrid_proxy.Api.Stream.{Jsons, Stream, Round, run, start, sse_gen, is_delta}
use all_debrid_proxy.Api.Stream.Laws.{view, IsTracked, run-IsTracked}
use all_debrid_proxy.Api.Stream.Fresh.{IsDelta, sse_gen-view}
use all_debrid_proxy.Api.Uploads.{Upload, Drawn, upload_file_task}
use all_debrid_proxy.Api.Uploads.Names.{safe_name}
use all_debrid_proxy.Api.Uploads.Laws.{content, IsSettled, upload_file_task_lem}
use all_debrid_proxy.Api.Uploads.Laws.Name.{IsFileName, safe_name-IsFileName}
use all_debrid_proxy.Tests.Data.{task_id, a_task, a_file, first_id, second_id, a_world}

-- One token, issued at 5 and asked for at 9.
abbrev one_issue : Issue
one_issue = record { task_id = task_id; token = codes "t0k"; at = 5 }

let_in :
    verify_sse_access memory task_id (some (codes "t0k")) 9 (issue_all memory (one_issue ∷ []))
    ≡ ok tt
unfolding verify_sse_access generate_sse_token text_eq
let_in = refl

verify_sse_access-is_open_example :
    (token : Text) × (some (codes "t0k") ≡ some token)
    × (any (is_open task_id token 9) (one_issue ∷ []) ≡ true)
verify_sse_access-is_open_example =
    verify_sse_access-is_open memory task_id (some (codes "t0k")) 9 (one_issue ∷ [])
      ((refl, refl, λ e. cc), tt) (omega arith, tt) let_in

-- Snapshots that say only how many files there are.
abbrev counted : Text → Fields
counted s =
    Fields.field (codes "files") (Json.array Items.nil)
      (Fields.field (codes "id") (Json.text s) Fields.end)

abbrev shown : Fields → Text
shown Fields.end = []
shown (Fields.field k (Json.text s) fs) = s ++ shown fs
shown (Fields.field k v fs) = shown fs

abbrev delta : Fields
delta = Fields.field (codes "status") (Json.text (codes "ready")) Fields.end

abbrev jsons : Jsons
jsons = record {
  dumps = shown;
  loads = λ s. some (Json.object delta);
  dict = λ r. counted (codes "a");
}

abbrev quiet : Round
quiet = record { now = 4; message = none; fresh = some (counted (codes "a")) }

abbrev told : Round
told = record { now = 7; message = some (codes "{}"); fresh = some (counted (codes "b")) }

abbrev at_start : Stream
at_start = start jsons (counted (codes "a")) 0

run-IsTracked_example : IsTracked jsons at_start.last_sent (run jsons (quiet ∷ told ∷ []) at_start)
run-IsTracked_example = run-IsTracked jsons (quiet ∷ told ∷ []) at_start

told-IsDelta : IsDelta jsons (counted (codes "b")) told
unfolding get is_delta
told-IsDelta = (codes "{}", delta, refl, refl, refl, refl, refl)

sse_gen-view_example :
    view jsons [] (sse_gen jsons (counted (codes "a")) 0 ((quiet ∷ []) ++ (told ∷ []))) ≡ codes "b"
sse_gen-view_example =
    sse_gen-view jsons (counted (codes "a")) (counted (codes "b")) 0 (quiet ∷ []) told told-IsDelta

abbrev two_tasks : Db
two_tasks = record (a_world (a_task Mode.auto SourceType.link Status.queued) []).db {
  tasks =
      a_task Mode.auto SourceType.link Status.queued
      ∷ (record (a_task Mode.auto SourceType.link Status.queued) { id = codes "b"; created_at = 8 })
      ∷ [];
}

abbrev first_page : TaskPage
first_page = record {
  tasks =
      (record (a_task Mode.auto SourceType.link Status.queued) { id = codes "b"; created_at = 8 })
      ∷ [];
  total = 2;
}

first_listed :
    list_tasks (λ t. 0) (StatusFilter.only Status.queued) (pos 1) (pos 0) (pos 7) two_tasks
    ≡ ok first_page
unfolding list_tasks
first_listed = refl

own_times : HasOwnTimes (filter (is_asked (StatusFilter.only Status.queued) 7) two_tasks.tasks)
own_times = ((ground arith, tt), (tt, tt))

list_tasks-pages_example :
    let asked = is_asked (StatusFilter.only Status.queued) 7 in
    let got = pages (λ k t. 0) (StatusFilter.only Status.queued) 7 two_tasks 1 2 in
    (count_if (has_task_id task_id) got
      ≡ count_if (has_task_id task_id) (filter asked two_tasks.tasks))
    × IsSorted newest_first got
    × (length got ≡ 2)
    × (2 ≡ length (filter asked two_tasks.tasks))
list_tasks-pages_example =
    list_tasks-pages (λ k t. 0) (StatusFilter.only Status.queued) 7 two_tasks 1 2
      (has_task_id task_id) first_page refl (omega arith) own_times first_listed (omega arith)

-- A task with one finished and one running file.
abbrev running : Task
running = a_task Mode.auto SourceType.link Status.downloading

abbrev running_db : Db
running_db =
    (a_world running
      (a_file first_id 0 FileState.downloading ∷ a_file second_id 1 FileState.done ∷ [])).db

running-IsWithin : All IsWithin (files_of task_id running_db)
unfolding files_of text_eq
running-IsWithin = ((λ e. cc, omega arith), ((λ e. cc, omega arith), tt))

running-HasOneTask : All (HasOneTask running_db.tasks) running_db.files
unfolding text_eq
running-HasOneTask = (refl, (refl, tt))

task_to_response-reserved_example :
    (task_to_response running running_db).task_reserved_bytes
    ≡ pos (reserved_bytes_for_task task_id running_db)
task_to_response-reserved_example = task_to_response-reserved running running_db running-IsWithin

get_system_stats-reserved_example :
    (get_system_stats (λ a b. a) running_db).reserved_bytes ≡ global_reserved_bytes running_db
get_system_stats-reserved_example =
    get_system_stats-reserved (λ a b. a) running_db running-HasOneTask

abbrev an_upload : Upload
an_upload = record {
  original_filename = codes "../a b.mkv";
  reads = some (codes "abc") ∷ some (codes "d") ∷ some [] ∷ [];
  label = none;
  user_id = none;
}

abbrev drawn : Drawn
drawn = record { task_id = task_id; file_id = first_id; identifier = codes "h"; now = 3 }

upload_file_task_lem_example :
    IsSettled drawn an_upload
      (safe_name ascii_only (codes "../a b.mkv") 3)
      (content an_upload.reads)
      (a_world running [])
      (upload_file_task ascii_only drawn an_upload (a_world running []))
upload_file_task_lem_example = upload_file_task_lem ascii_only drawn an_upload (a_world running [])

safe_name-IsFileName_example : IsFileName (safe_name ascii_only (codes "../a b.mkv") 3)
safe_name-IsFileName_example = safe_name-IsFileName ascii_only (codes "../a b.mkv") 3
