-- ===== src/Frontend/Submit.antt =====
-- `create_task` of frontend/app.py: one form becomes a request to the API for each source. Flashed
-- messages are left out but for what they report; the check of the CSRF token comes before.
pub mod Sources
pub mod Labels
pub mod Recorded
pub mod Again
use all_debrid_proxy.Base.{
  ℕ, ◌+◌, ◌-◌, Bool, true, false, not, ◌&&◌, ◌||◌, Option, none, some, List, [], ◌∷◌, ◌++◌, map,
  ltb, if◌then◌else◌, Text, codes, is_empty, text_eq, elem_of, strip, take, length, Result, ok, err,
  ◌>>=◌, ◌>>◌, raise_if,
}
use all_debrid_proxy.Base.Unicode.{Unicode}
use all_debrid_proxy.Base.Decimal.{decimal}
use all_debrid_proxy.Constants.{max_sources_per_submission}
use all_debrid_proxy.Frontend.Submit.Sources.{
  Torf, File, text_sources, torrent_magnets, unique_sources,
}

-- `MAX_SOURCE_LENGTH` and `MAX_LABEL_LENGTH`
abbrev pub max_source_length : ℕ
max_source_length = 10000

abbrev pub max_label_length : ℕ
max_label_length = 500

pub record Form : Type 0 where
  pub mode : Text
  pub source : Text
  pub label : Text
  pub torrent_files : List File

-- The JSON body of a request; an absent label is none.
pub record Payload : Type 0 where
  pub mode : Text
  pub source : Text
  pub user_id : ℕ
  pub label : Option Text

-- What `w_request` makes of the answer: the id of the task, empty if the body has none, and whether it was
-- reused; or an error, which may also be that the API was not reached.
pub data Reply : Type 0 where
  refused : Text → Reply
  accepted : Text → Bool → Reply

-- The API as the frontend calls it, with what its calls change.
pub record Backend {ℓ} (S : Type ℓ) : Type ℓ where
  pub post_task : Payload → S → Reply × S
  -- `GET /api/tasks/{task_id}` answers without an error.
  pub has_task : Text → S → Bool

pub data Rejected : Type 0 where
  source_too_long no_sources invalid_mode label_too_long no_unique_sources too_many_sources :
      Rejected

pub data Redirect : Type 0 where
  index : Redirect
  admin_page : Redirect
  task_view : Text → Redirect

-- `f" ({i+1}/{len(sources)})"`
abbrev pub suffix : ℕ → ℕ → Text
unfolding decimal
suffix i n = codes " (" ++ decimal (i + 1) ++ codes "/" ++ decimal n ++ codes ")"

-- The label of the source with index `i` of `n`.
unfoldable pub label_for : Text → ℕ → ℕ → Option Text
unfolding decimal
label_for [] i n = none
label_for (c ∷ s) i n =
    if ltb 1 n
    then some (take (max_label_length - length (suffix i n)) (c ∷ s) ++ suffix i n)
    else some (c ∷ s)

-- A source that failed, by its number, with the message if there is one.
pub data Failure : Type 0 where
  request_failed : ℕ → Text → Failure
  no_task_id : ℕ → Failure

pub record Progress : Type 0 where
  pub created_tasks : List Text
  pub reused_tasks : List Text
  pub failed_sources : List Failure

abbrev pub add_new : Text → List Text → List Text
unfolding elem_of
add_new id ids = if elem_of id ids then ids else ids ++ (id ∷ [])

-- The bookkeeping for the answer to source `i`.
unfoldable pub record_reply : ℕ → Reply → Progress → Progress
unfolding elem_of
record_reply i (Reply.refused message) p = record p {
  failed_sources = p.failed_sources ++ (Failure.request_failed (i + 1) message ∷ []);
}
record_reply i (Reply.accepted [] reused) p = record p {
  failed_sources = p.failed_sources ++ (Failure.no_task_id (i + 1) ∷ []);
}
record_reply i (Reply.accepted (c ∷ id) true) p = record p {
  reused_tasks = add_new (c ∷ id) p.reused_tasks;
}
record_reply i (Reply.accepted (c ∷ id) false) p = record p {
  created_tasks = add_new (c ∷ id) p.created_tasks;
}

module _ {ℓ} {S : Type ℓ} (B : Backend S) where
  -- The loop over the payloads, from index `i` on.
  unfoldable pub post_all : ℕ → List Payload → Progress → S → Progress × S
  unfolding record_reply
  post_all i [] p s = (p, s)
  post_all i (payload ∷ rest) p s =
      let (reply, s') = B.post_task payload s in post_all (i + 1) rest (record_reply i reply p) s'

  -- `len(all_tasks)` decides where the browser goes next.
  unfoldable pub redirect_for : List Text → S → Redirect
  redirect_for [] s = Redirect.index
  redirect_for (id ∷ []) s = if B.has_task id s then Redirect.task_view id else Redirect.admin_page
  redirect_for (id ∷ other ∷ ids) s = Redirect.admin_page

-- The payloads, from index `i` of `n` on.
unfoldable pub payloads : Form → ℕ → ℕ → ℕ → List Text → List Payload
unfolding label_for strip
payloads form user n i [] = []
payloads form user n i (source ∷ rest) =
    record {
      mode = form.mode;
      source = source;
      user_id = user;
      label = label_for (strip form.label) i n;
    }
    ∷ payloads form user n (i + 1) rest

abbrev pub is_known_mode : Text → Bool
unfolding text_eq
is_known_mode mode = text_eq mode (codes "auto") || text_eq mode (codes "select")

abbrev pub no_texts : List Text → Bool
no_texts [] = true
no_texts (t ∷ ts) = false

-- The checks, which give the sources to post.
unfoldable pub check_form : Unicode → Torf → Form → Result Rejected (List Text)
unfolding text_sources torrent_magnets unique_sources strip text_eq
check_form U torf form = do
  raise_if (ltb max_source_length (length (strip form.source))) Rejected.source_too_long
  let sources = text_sources (strip form.source) ++ torrent_magnets U torf form.torrent_files
  raise_if (no_texts sources) Rejected.no_sources
  raise_if (not (is_known_mode form.mode)) Rejected.invalid_mode
  raise_if (ltb max_label_length (length (strip form.label))) Rejected.label_too_long
  let unique = unique_sources U [] sources
  raise_if (no_texts unique) Rejected.no_unique_sources
  raise_if (ltb max_sources_per_submission (length unique)) Rejected.too_many_sources
  ok unique

abbrev pub nothing_yet : Progress
nothing_yet = record { created_tasks = []; reused_tasks = []; failed_sources = [] }

unfoldable pub post_form : {S : Type 0} → Backend S → ℕ → Form → List Text → S → Progress × S
unfolding post_all payloads
post_form B user form sources s =
    post_all B 0 (payloads form user (length sources) 0 sources) nothing_yet s

-- What the handler reports and where it leads, or why it rejects the form; and what the API holds then.
unfoldable pub create_task :
    {S : Type 0}
    → Backend S
    → Unicode
    → Torf
    → ℕ
    → Form
    → S
    → Result Rejected (Progress × Redirect) × S
unfolding check_form post_form redirect_for
create_task B U torf user form s = elim (check_form U torf form) [
  | err e ↦ (err e, s)
  | ok sources ↦
      let (p, s') = post_form B user form sources s in
      (ok (p, redirect_for B (p.created_tasks ++ p.reused_tasks) s'), s')
]
