-- ===== src/Api/Stream.antt =====
-- `task_events` of app/api.py: the event stream of one task, one round of its loop as a step. `Jsons` is the
-- `json` module and pydantic's `dict()`. Times are tenths of a second. Cancellation and the closing of the
-- subscription are left out.
pub mod Laws
pub mod Fresh
use all_debrid_proxy.Base.{
  ℕ, ◌-◌, Bool, true, false, not, ◌&&◌, ◌||◌, Option, none, some, List, [], ◌∷◌, ◌++◌, leb,
  if◌then◌else◌, Text, codes, text_eq, ok, err, ◌>>=◌,
}
use all_debrid_proxy.Base.Unicode.{Unicode}
use all_debrid_proxy.Constants.{
  sse_heartbeat_interval, sse_refresh_interval, sse_empty_files_poll, sse_max_empty_wait,
}
use all_debrid_proxy.World.{World}
use all_debrid_proxy.Provider.Values.{Json, Items, Fields, get}
use all_debrid_proxy.Auth.{Keys, verify_sse_access}
use all_debrid_proxy.Api.Errors.{Response}
use all_debrid_proxy.Api.Tasks.Readers.{TaskResponse, get_task}

pub record Jsons : Type 0 where
  -- `json.dumps(v, sort_keys=True, default=str)`
  pub dumps : Fields → Text
  pub loads : Text → Option Json
  pub dict : TaskResponse → Fields

-- What the client gets: a snapshot or a full list, which is recorded as the last one sent; a message passed
-- on as it is; or a comment that keeps the connection open.
pub data Sent : Type 0 where
  snapshot : Fields → Sent
  forwarded : Json → Sent
  keep_alive : ℕ → Sent

-- `snapshot.files` counts only by whether it is empty.
pub record Stream : Type 0 where
  pub last_sent : Text
  pub have_files : Bool
  pub last_full_refresh : ℕ
  pub first_connect_time : ℕ

-- A round: the time, the message of the channel if one came before the timeout, and what
-- `_fresh_snapshot_dict()` gives if it is called.
pub record Round : Type 0 where
  pub now : ℕ
  pub message : Option Text
  pub fresh : Option Fields

-- `bool(d.get("files", []))`
abbrev pub lists_files : Option Json → Bool
lists_files (some (Json.array (Items.cons v vs))) = true
lists_files _ = false

abbrev pub start : Jsons → Fields → ℕ → Stream
unfolding get
start J snap now = record {
  last_sent = J.dumps snap;
  have_files = lists_files (get (codes "files") snap);
  last_full_refresh = now;
  first_connect_time = now;
}

-- The `timeout` of the next round.
unfoldable pub timeout_of : Stream → ℕ
timeout_of s = if s.have_files then sse_heartbeat_interval else sse_empty_files_poll

-- `if new_json != last_sent_json: yield ...; last_sent_json = new_json`
unfoldable pub send_changed : Jsons → Fields → Stream → List Sent × Stream
unfolding text_eq
send_changed J snap s =
    if text_eq (J.dumps snap) s.last_sent
    then ([], s)
    else (Sent.snapshot snap ∷ [], record s { last_sent = J.dumps snap })

-- The same, followed by `snapshot.files = snap.get("files", [])` if it was sent.
unfoldable pub send_listing : Jsons → Fields → Stream → List Sent × Stream
unfolding text_eq get
send_listing J snap s = if text_eq (J.dumps snap) s.last_sent then ([], s) else (
  Sent.snapshot snap ∷ [],
  record s { last_sent = J.dumps snap; have_files = lists_files (get (codes "files") snap) },
)

abbrev pub poll_files : Jsons → Option Fields → Stream → List Sent × Stream
unfolding send_listing
poll_files J none s = ([], s)
poll_files J (some snap) s = send_listing J snap s

abbrev pub refresh : Jsons → Option Fields → Stream → List Sent × Stream
unfolding send_changed
refresh J none s = ([], s)
refresh J (some snap) s = send_changed J snap s

abbrev pub refreshed : ℕ → List Sent × Stream → List Sent × Stream
refreshed now (out, s) = (out, record s { last_full_refresh = now })

abbrev pub then_keep_alive : ℕ → List Sent × Stream → List Sent × Stream
then_keep_alive now (out, s) = (out ++ (Sent.keep_alive now ∷ []), s)

-- 1) No message came.
unfoldable pub on_silence : Jsons → ℕ → Option Fields → Stream → List Sent × Stream
unfolding send_changed send_listing
on_silence J now fresh s =
    if not s.have_files && leb (now - s.first_connect_time) sse_max_empty_wait
    then poll_files J fresh s
    else if s.have_files && leb sse_refresh_interval (now - s.last_full_refresh)
    then then_keep_alive now (refreshed now (refresh J fresh s))
    else then_keep_alive now ([], s)

-- `json.loads(data_raw)`, or the raw text under `raw`
abbrev pub message_data : Option Json → Text → Json
message_data (some v) raw = v
message_data none raw = Json.object (Fields.field (codes "raw") (Json.text raw) Fields.end)

abbrev pub is_present : Option Json → Bool
is_present none = false
is_present (some v) = true

abbrev pub is_delta_type : Option Json → Bool
unfolding text_eq
is_delta_type (some (Json.text s)) = text_eq s (codes "state") || text_eq s (codes "file")
is_delta_type _ = false

-- `data.get("type") in ("state", "file") or "status" in data or "fileId" in data`
unfoldable pub is_delta : Fields → Bool
unfolding get text_eq
is_delta fs =
    is_delta_type (get (codes "type") fs)
    || is_present (get (codes "status") fs)
    || is_present (get (codes "fileId") fs)

-- A full list of files is passed on and recorded.
abbrev pub with_files : Bool → List Sent × Stream → List Sent × Stream
with_files b (out, s) = (out, record s { have_files = b })

abbrev pub fresh_or_delta : Jsons → Fields → Option Fields → Stream → List Sent × Stream
unfolding send_listing
fresh_or_delta J fs none s = (Sent.forwarded (Json.object fs) ∷ [], s)
fresh_or_delta J fs (some snap) s = send_listing J snap s

abbrev pub on_object :
    Jsons → ℕ → Fields → Option Fields → Option Json → Stream → List Sent × Stream
unfolding send_changed send_listing is_delta
on_object J now fs fresh (some (Json.array xs)) s =
    with_files (lists_files (some (Json.array xs))) (send_changed J fs s)
on_object J now fs fresh _ s =
    if is_delta fs
    then refreshed now (fresh_or_delta J fs fresh s)
    else (Sent.forwarded (Json.object fs) ∷ [], s)

-- 2) A message came.
unfoldable pub on_message : Jsons → ℕ → Json → Option Fields → Stream → List Sent × Stream
unfolding send_changed send_listing is_delta get
on_message J now (Json.object fs) fresh s = on_object J now fs fresh (get (codes "files") fs) s
on_message J now v fresh s = (Sent.forwarded v ∷ [], s)

unfoldable pub step : Jsons → Round → Stream → List Sent × Stream
unfolding on_silence on_message
step J r s = elim r.message [
  | none ↦ on_silence J r.now r.fresh s
  | some raw ↦ on_message J r.now (message_data (J.loads raw) raw) r.fresh s
]

abbrev pub followed_by : List Sent × Stream → (Stream → List Sent × Stream) → List Sent × Stream
followed_by (out, s) rest = let (later, s') = rest s in (out ++ later, s')

-- The loop, for the rounds that happen until the client goes.
unfoldable pub run : Jsons → List Round → Stream → List Sent × Stream
unfolding step
run J [] s = ([], s)
run J (r ∷ rs) s = followed_by (step J r s) (run J rs)

-- What the client gets from the start, after the comment that says hello.
unfoldable pub sse_gen : Jsons → Fields → ℕ → List Round → List Sent
unfolding run get
sse_gen J snap now rs = Sent.snapshot snap ∷ (run J rs (start J snap now)).0

-- The handler: the check of the token, then that of the task id.
unfoldable pub task_events :
    (K : Keys)
    → Jsons
    → Unicode
    → Text
    → Option Text
    → ℕ
    → List Round
    → World
    → K.State
    → Response (List Sent)
unfolding verify_sse_access get_task sse_gen
task_events K J U task_id token now rounds w tokens = do
  _ ← verify_sse_access K task_id token now tokens
  response ← get_task U task_id w
  ok (sse_gen J (J.dict response) now rounds)
