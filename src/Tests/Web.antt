-- ===== src/Tests/Web.antt =====
-- The web interface at concrete inputs.
use all_debrid_proxy.Base.{
  true, false, ℕ, ◌+◌, ◌≤◌, ◌≡◌, refl, none, some, List, [], ◌∷◌, arith, Text, codes, All, length,
  take, starts_with, Result, ok,
}
use all_debrid_proxy.Base.Unicode.{ascii_only}
use all_debrid_proxy.World.{World}
use all_debrid_proxy.Frontend.Share.{
  FilePath, Disk, is_below, is_still_downloading, served_file, should_include_file,
}
use all_debrid_proxy.Frontend.Share.Below.{served_file-is_below}
use all_debrid_proxy.Frontend.Streaming.{
  Partial, Answer, two_parts, range_parts, generate, parse_range, stream_video, partial_content,
}
use all_debrid_proxy.Frontend.Streaming.Body.{joined, generate_lem}
use all_debrid_proxy.Frontend.Streaming.Range.{
  IsRange, IsServed, range_text, stream_video-partial, parse_range-range_text,
}
use all_debrid_proxy.Frontend.Submit.Sources.{Torf}
use all_debrid_proxy.Frontend.Submit.{Form, Progress, Rejected, Redirect, create_task}
use all_debrid_proxy.Frontend.Submit.Recorded.{IsAgain}
use all_debrid_proxy.Frontend.Submit.Again.{api, progress_of, create_task-twice}
use all_debrid_proxy.Tests.Data.{task_id, library, empty_db}

abbrev no_torrents : Torf
no_torrents = record { read_stream = none; magnet = λ s. s }

-- One source, twice and in two spellings, and a second one that is none.
abbrev a_form : Form
a_form = record {
  mode = codes "auto";
  source = codes "http://h/a.mkv\nHTTP://h/a.mkv\nnothing";
  label = codes "Films";
  torrent_files = [];
}

abbrev start : ℕ × World
start = (0, record { db = empty_db; events = [] })

abbrev new_id : ℕ → Text
new_id n = (b'a' + n) ∷ []

abbrev clock : ℕ → ℕ
clock n = n

abbrev first_answer : Result Rejected (Progress × Redirect)
first_answer =
    (create_task (api library (λ e. codes "no") new_id clock) ascii_only no_torrents 7 a_form
      start).0

abbrev first : ℕ × World
first =
    (create_task (api library (λ e. codes "no") new_id clock) ascii_only no_torrents 7 a_form
      start).1

create_task-twice_example :
    let second =
      create_task
        (api library (λ e. codes "no") new_id clock)
        ascii_only
        no_torrents
        7
        a_form
        first in
    (second.1.1 ≡ first.1)
    × IsAgain
        (progress_of library (λ e. codes "no") new_id clock second.0)
        (progress_of library (λ e. codes "no") new_id clock first_answer)
create_task-twice_example =
    create_task-twice library (λ e. codes "no") new_id clock ascii_only no_torrents 7 a_form start

generate_lem_example :
    (joined (generate 2 3 3 (1 ∷ 2 ∷ 3 ∷ 4 ∷ [])) ≡ take 3 (1 ∷ 2 ∷ 3 ∷ 4 ∷ []))
    × All (λ c. (1 ≤ length c) × (length c ≤ 2)) (generate 2 3 3 (1 ∷ 2 ∷ 3 ∷ 4 ∷ []))
generate_lem_example = generate_lem 2 3 3 (1 ∷ 2 ∷ 3 ∷ 4 ∷ []) (omega arith) (omega arith)

parse_range-range_text_example : parse_range 10 (range_text 2 5) ≡ ok (2, 5)
parse_range-range_text_example = parse_range-range_text 10 2 5 (omega arith) (omega arith)

abbrev video : List ℕ
video = 1 ∷ 2 ∷ 3 ∷ 4 ∷ []

abbrev middle : Partial
middle = partial_content video (1, 2)

middle_answered : stream_video video (some (codes "bytes=1-2")) ≡ ok (Answer.partial middle)
unfolding stream_video
middle_answered = refl

stream_video-partial_example :
    (a : ℕ) × (b : ℕ) × (parts : Text × Text) × (starts_with (codes "bytes=1-2") (codes "bytes=")
      ≡ true)
    × (two_parts (range_parts (codes "bytes=1-2")) ≡ ok parts)
    × IsRange (length video) parts a b
    × IsServed video middle a b
stream_video-partial_example = stream_video-partial video (codes "bytes=1-2") middle middle_answered

-- A disk without links that has one file for the task, and no control file.
abbrev disk : Disk
disk = record {
  resolve = λ p. p;
  exists = λ p. should_include_file p;
  is_file = λ p. true;
  is_symlink = λ p. false;
  rglob = λ p. [];
}

abbrev storage : FilePath
storage = codes "srv" ∷ []

abbrev served : FilePath
served = codes "srv" ∷ task_id ∷ codes "files" ∷ codes "a.mkv" ∷ []

a_file_served : served_file disk storage task_id (codes "a.mkv") ≡ ok served
unfolding served_file should_include_file
a_file_served = refl

served_file-is_below_example :
    (is_below storage served ≡ true)
    × (disk.exists served ≡ true)
    × (disk.is_file served ≡ true)
    × (is_still_downloading disk served ≡ false)
served_file-is_below_example =
    served_file-is_below disk storage task_id (codes "a.mkv") served a_file_served
