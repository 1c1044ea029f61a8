-- ===== src/Api/Tasks/Readers.antt =====
-- `task_to_response`, `get_task`, `create_sse_token` and `list_tasks` of app/api.py. The free space and the
-- floor of the storage info come from outside and are left out.
pub mod Pages
pub mod Reserved
use all_debrid_proxy.Base.{
  ℕ, ◌+◌, ◌-◌, Bool, true, false, ◌&&◌, ◌||◌, Option, none, some, List, [], ◌∷◌, map, ltb, leb,
  ◌==◌, if◌then◌else◌, ℤ, pos, negsuc, Text, take, drop, filter, length, sum_of, ok, err, ◌>>=◌,
  Result,
}
use all_debrid_proxy.Base.Unicode.{Unicode}
use all_debrid_proxy.Base.Sorting.{sort_by}
use all_debrid_proxy.Constants
use all_debrid_proxy.Constants.{
  Status, FileState, Mode, status_eq, default_task_limit, sse_token_expiry,
}
use all_debrid_proxy.Models.{Db, Task, TaskFile, or_zero, files_of}
use all_debrid_proxy.World.{World}
use all_debrid_proxy.Validation.Names.{validate_positive_int}
use all_debrid_proxy.Validation.Invalid.{Validated}
use all_debrid_proxy.Worker.Start.{order_by_index}
use all_debrid_proxy.Auth.{Keys, generate_sse_token}
use all_debrid_proxy.Api.Errors
use all_debrid_proxy.Api.Errors.{HttpError, Response}
use all_debrid_proxy.Api.Tasks.{or_400, require_task}

pub record FileItem : Type 0 where
  pub file_id : Text
  pub index : ℕ
  pub name : Text
  pub size : Option ℕ
  pub state : FileState
  pub bytes_downloaded : ℕ
  pub speed_bps : ℕ
  pub eta_seconds : Option ℕ
  pub progress_pct : ℕ

pub record TaskResponse : Type 0 where
  pub task_id : Text
  pub mode : Mode
  pub status : Status
  pub label : Option Text
  pub infohash : Text
  pub files : List FileItem
  pub task_total_size : ℕ
  pub task_reserved_bytes : ℤ

-- `a - b`
abbrev pub minus : ℕ → ℕ → ℤ
minus a b = if leb b a then pos (a - b) else negsuc (b - a - 1)

-- `f.state in ("selected", "downloading")`
abbrev pub is_reserving : TaskFile → Bool
is_reserving f = elim f.state [
  | FileState.selected ↦ true
  | FileState.downloading ↦ true
  | _ ↦ false
]

abbrev pub file_item : TaskFile → FileItem
file_item f = record {
  file_id = f.id;
  index = f.index;
  name = f.name;
  size = f.size_bytes;
  state = f.state;
  bytes_downloaded = f.bytes_downloaded;
  speed_bps = f.speed_bps;
  eta_seconds = f.eta_seconds;
  progress_pct = f.progress_pct;
}

-- The sum of the differences, as the difference of two sums.
unfoldable pub reserved_difference : List TaskFile → ℤ
reserved_difference fs =
    let reserving = filter is_reserving fs in
    minus (sum_of (λ f. or_zero f.size_bytes) reserving)
      (sum_of (λ f. f.bytes_downloaded) reserving)

unfoldable pub task_to_response : Task → Db → TaskResponse
unfolding order_by_index files_of reserved_difference
task_to_response t db =
    let files = order_by_index (files_of t.id db) in
    record {
      task_id = t.id;
      mode = t.mode;
      status = t.status;
      label = t.label;
      infohash = t.infohash;
      files = map file_item files;
      task_total_size = sum_of (λ (f : TaskFile). or_zero f.size_bytes) files;
      task_reserved_bytes = reserved_difference files;
    }

unfoldable pub get_task : Unicode → Text → World → Response TaskResponse
unfolding require_task task_to_response
get_task U task_id w = do found ← require_task U task_id w; ok (task_to_response found.1 w.db)

pub record TokenAnswer (K : Keys) : Type 0 where
  pub token : Text
  pub expires_in : ℕ
  pub store : K.State

unfoldable pub create_sse_token :
    (K : Keys) → Unicode → Text → Text → ℕ → World → K.State → Response (TokenAnswer K)
unfolding require_task generate_sse_token
create_sse_token K U task_id token now w s = do
  found ← require_task U task_id w
  ok (record {
    token = token;
    expires_in = sse_token_expiry;
    store = generate_sse_token K found.0 token now s;
  })

-- The query parameter `status`: absent or empty, not one of `ALL_STATUSES`, or a status.
pub data StatusFilter : Type 0 where
  all_statuses : StatusFilter
  unknown_status : StatusFilter
  only : Status → StatusFilter

abbrev pub has_status : StatusFilter → Task → Bool
has_status (StatusFilter.only s) t = status_eq t.status s
has_status _ t = true

abbrev pub checked_status : StatusFilter → Response StatusFilter
checked_status StatusFilter.unknown_status = err HttpError.invalid_status
checked_status s = ok s

-- `if n: n = validate_positive_int(n, ...)`: the check accepts 0 as well.
abbrev pub checked_number : ℤ → Option ℤ → Response ℕ
unfolding validate_positive_int
checked_number n max_value = elim (or_400 (validate_positive_int n max_value)) [
  | err e ↦ err e
  | ok (pos k) ↦ ok k
  | ok (negsuc k) ↦ ok 0
]

-- `if user_id: query.where(Task.user_id == user_id)`, where 0 is no filter
abbrev pub owned_by : ℕ → Task → Bool
owned_by user t = if user == 0 then true else elim t.user_id [ none ↦ false | some u ↦ u == user ]

-- `order_by(Task.created_at.desc())`: of two rows of one time, either may come first. `rank` stands for what the
-- database puts first in this query.
abbrev pub newest_by : (Task → ℕ) → Task → Task → Bool
newest_by rank t u =
    ltb u.created_at t.created_at || ((t.created_at == u.created_at) && leb (rank t) (rank u))

unfoldable pub matching : StatusFilter → ℕ → List Task → List Task
matching status user ts = filter (λ (t : Task). has_status status t && owned_by user t) ts

-- The rows whose fields the answer lists, and how many there are in all.
pub record TaskPage : Type 0 where
  pub tasks : List Task
  pub total : ℕ

-- An absent user id is 0.
unfoldable pub list_tasks : (Task → ℕ) → StatusFilter → ℤ → ℤ → ℤ → Db → Response TaskPage
unfolding validate_positive_int matching sort_by
list_tasks rank status limit offset user_id db = do
  n ← checked_number limit (some (pos default_task_limit))
  from ← checked_number offset none
  s ← checked_status status
  user ← checked_number user_id none
  ok (record {
    tasks = take n (drop from (sort_by (newest_by rank) (matching s user db.tasks)));
    total = length (matching s user db.tasks);
  })
