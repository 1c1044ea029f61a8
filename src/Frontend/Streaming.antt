-- ===== src/Frontend/Streaming.antt =====
-- `stream_video` of frontend/app.py: Range requests. A file is the list of its bytes; `send_file`, which
-- serves the whole file, is Flask's.
pub mod Range
pub mod Body
use all_debrid_proxy.Base.{
  ℕ, zero, suc, ◌+◌, ◌-◌, ◌*◌, min, Bool, true, false, not, ◌&&◌, ◌||◌, Option, none, some, List,
  [], ◌∷◌, ◌++◌, ltb, leb, ◌==◌, if◌then◌else◌, ℤ, pos, negsuc, Text, codes, is_empty, starts_with,
  strip, split, take, drop, length, Result, ok, err, ◌>>=◌, ◌>>◌, raise_if,
}
use all_debrid_proxy.Base.Decimal.{decimal, int_of}

-- `abort(416)` in the checks, and after a ValueError.
pub data RangeError : Type 0 where
  not_satisfiable invalid_header : RangeError

abbrev pub or_invalid : Option ℤ → Result RangeError ℤ
or_invalid none = err RangeError.invalid_header
or_invalid (some n) = ok n

-- `int(part) if part.strip() else default`
unfoldable pub bound : Text → ℤ → Result RangeError ℤ
unfolding strip int_of
bound part default = if is_empty (strip part) then ok default else or_invalid (int_of part)

-- `file_size - 1`
abbrev pub last_byte : ℕ → ℤ
last_byte zero = negsuc zero
last_byte (suc n) = pos n

-- `start < 0 or start >= file_size or end >= file_size or start > end`
abbrev pub check_bounds : ℕ → ℤ → ℤ → Result RangeError (ℕ × ℕ)
check_bounds size (negsuc a) end = err RangeError.not_satisfiable
check_bounds size (pos a) (negsuc b) = err RangeError.not_satisfiable
check_bounds size (pos a) (pos b) = do
  raise_if (leb size a || leb size b || ltb b a) RangeError.not_satisfiable
  ok (a, b)

-- `parts` has two members.
abbrev pub two_parts : List Text → Result RangeError (Text × Text)
two_parts (a ∷ b ∷ []) = ok (a, b)
two_parts _ = err RangeError.not_satisfiable

abbrev pub first_of : List Text → Text
first_of [] = []
first_of (s ∷ ss) = s

-- `range_header[6:].split(',')[0].strip().split('-')`
unfoldable pub range_parts : Text → List Text
unfolding split strip
range_parts header = split b'-' (strip (first_of (split b',' (drop 6 header))))

unfoldable pub range_between : ℕ → Text × Text → Result RangeError (ℕ × ℕ)
unfolding bound
range_between size parts = do
  start ← bound parts.0 (pos 0)
  end ← bound parts.1 (last_byte size)
  check_bounds size start end

-- The first and the last byte of the range that a header asks for.
unfoldable pub parse_range : ℕ → Text → Result RangeError (ℕ × ℕ)
unfolding starts_with range_parts range_between
parse_range size header = do
  raise_if (not (starts_with header (codes "bytes="))) RangeError.not_satisfiable
  parts ← two_parts (range_parts header)
  range_between size parts

abbrev pub small_range : ℕ
small_range = 5 * 1024 * 1024

abbrev pub chunk_size : ℕ
chunk_size = 256 * 1024

-- `generate()`: the chunks of `remaining` bytes, read from what is left of the file. The loop ends when
-- nothing remains or a read returns nothing; the fuel bounds its rounds.
unfoldable pub generate : ℕ → ℕ → ℕ → List ℕ → List (List ℕ)
generate size zero remaining rest = []
generate size (suc fuel) remaining rest =
    let n = min size remaining in
    let chunk = take n rest in
    let more = generate size fuel (remaining - length chunk) (drop n rest) in
    if ltb 0 remaining && not (is_empty chunk) then chunk ∷ more else []

-- A range is sent at once if it is small, else chunk by chunk.
unfoldable pub body : List ℕ → ℕ → ℕ → List (List ℕ)
unfolding generate
body content start range_length =
    let rest = drop start content in
    if ltb range_length small_range
    then take range_length rest ∷ []
    else generate chunk_size range_length range_length rest

-- The answer with the status 206.
pub record Partial : Type 0 where
  pub content_range : Text
  pub content_length : ℕ
  pub chunks : List (List ℕ)

pub data Answer : Type 0 where
  whole_file : Answer
  partial : Partial → Answer

unfoldable pub content_range_of : ℕ → ℕ → ℕ → Text
unfolding decimal
content_range_of start end size =
    codes "bytes " ++ (decimal start ++ (b'-' ∷ (decimal end ++ (b'/' ∷ decimal size))))

unfoldable pub partial_content : List ℕ → ℕ × ℕ → Partial
unfolding body content_range_of
partial_content content (start, end) = record {
  content_range = content_range_of start end (length content);
  content_length = end - start + 1;
  chunks = body content start (end - start + 1);
}

-- `none` is a request without the header.
unfoldable pub stream_video : List ℕ → Option Text → Result RangeError Answer
unfolding parse_range partial_content
stream_video content none = ok Answer.whole_file
stream_video content (some []) = ok Answer.whole_file
stream_video content (some (c ∷ s)) = do
  range ← parse_range (length content) (c ∷ s)
  ok (Answer.partial (partial_content content range))
