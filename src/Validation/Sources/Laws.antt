-- ===== src/Validation/Sources/Laws.antt =====
-- The sources that app/validation.py lets through, and its report of bad lines.
use all_debrid_proxy.Base.{
  ℕ, suc, ◌+◌, ◌≤◌, ◌≡◌, refl, ap, ◌∙◌, Bool, true, false, not, ◌||◌, List, [], ◌∷◌, map, arith,
  ltb, if◌then◌else◌, Text, codes, is_empty, has_char, starts_with, contains_text, strip, length,
  get_elem?, All, ◌≢◌, some, Result, ok, err, ◌>>◌, raise_if, >>-eq-ok,
}
use all_debrid_proxy.Base.Unicode.{Unicode}
use all_debrid_proxy.Constants.{SourceType, max_magnet_length, max_url_length}
use all_debrid_proxy.Constants.{max_sources_per_submission}
use all_debrid_proxy.Validation.Invalid.{Invalid, InvalidSources, Validated}
use all_debrid_proxy.Validation.Sources.{
  validate_magnet_link, validate_url, has_http_scheme, with_type, classify_source, validate_source,
  Checked, add_result, check_lines, no_lines, source_lines, all_or_errors, validate_sources,
}

pub record IsMagnet (U : Unicode) (s : Text) : Type 0 where
  pub scheme : starts_with s (codes "magnet:") ≡ true
  pub marker : contains_text (codes "xt=urn:btih:") (Unicode.lower U s) ≡ true
  pub short : length s ≤ max_magnet_length

pub record IsLink (s : Text) : Type 0 where
  pub scheme : has_http_scheme s ≡ true
  pub no_cr : has_char 13 s ≡ false
  pub no_lf : has_char 10 s ≡ false
  pub no_null : has_char 0 s ≡ false
  pub short : length s ≤ max_url_length

-- What a validated source of each type satisfies. Uploads never come out of the validator.
abbrev pub IsSource : Unicode → Text → SourceType → Type 0
IsSource U s SourceType.magnet = IsMagnet U s
IsSource U s SourceType.link = IsLink s
IsSource U s SourceType.upload = ⊥

validate_magnet_link-IsMagnet :
    (U : Unicode) (s r : Text) → validate_magnet_link U s ≡ ok r → (r ≡ s) × IsMagnet U s
unfolding validate_magnet_link
validate_magnet_link-IsMagnet U s r h = ground arith

validate_url-IsLink : (s r : Text) → validate_url s ≡ ok r → (r ≡ s) × IsLink s
unfolding validate_url
validate_url-IsLink s r h =
    let (_, h1) = >>-eq-ok (is_empty s) Invalid.url_required _ h in
    let (scheme, h2) = >>-eq-ok (not (has_http_scheme s)) Invalid.url_scheme _ h1 in
    let (short, h3) = >>-eq-ok (ltb max_url_length (length s)) Invalid.url_too_long _ h2 in
    let (chars, h4) =
      >>-eq-ok (has_char 13 s || has_char 10 s || has_char 0 s) Invalid.url_characters _ h3 in
    (
      ground arith,
      record {
        scheme = ground arith;
        no_cr = ground arith;
        no_lf = ground arith;
        no_null = ground arith;
        short = ground arith;
      },
    )

with_type-eq-ok :
    (t t' : SourceType) (v : Validated Text) (r : Text)
    → with_type t v ≡ ok (r, t')
    → (t ≡ t') × (v ≡ ok r)
with_type-eq-ok t t' (ok s) r h = ground arith
with_type-eq-ok t t' (err e) r h = cc

choose_source-IsSource :
    (U : Unicode) (s r : Text) (t : SourceType) (is_magnet is_http : Bool)
    → (if is_magnet
        then with_type SourceType.magnet (validate_magnet_link U s)
        else if is_http
        then with_type SourceType.link (validate_url s)
        else err Invalid.source_kind)
      ≡ ok (r, t)
    → (r ≡ s) × IsSource U s t
choose_source-IsSource U s r t true is_http h =
    let (p, v) = with_type-eq-ok SourceType.magnet t (validate_magnet_link U s) r h in
    let (same, good) = validate_magnet_link-IsMagnet U s r v in (same, rw (← p) good)
choose_source-IsSource U s r t false true h =
    let (p, v) = with_type-eq-ok SourceType.link t (validate_url s) r h in
    let (same, good) = validate_url-IsLink s r v in (same, rw (← p) good)
choose_source-IsSource U s r t false false h = cc

classify_source-IsSource :
    (U : Unicode) (s r : Text) (t : SourceType)
    → classify_source U s ≡ ok (r, t)
    → (r ≡ s) × IsSource U s t
unfolding classify_source
classify_source-IsSource U s r t h =
    choose_source-IsSource U s r t (starts_with s (codes "magnet:")) (has_http_scheme s) h

-- A validated source is the input without surrounding white space. It begins with "magnet:", holds the marker
-- "xt=urn:btih:" in some case, whether or not a hash follows, and has at most 10000 characters, or it is an http(s) URL of at most 2048 characters without line breaks
-- and null characters, as the type beside it says; never an upload.
pub validate_source-IsSource :
    (U : Unicode) (source r : Text) (t : SourceType)
    → validate_source U source ≡ ok (r, t)
    → (r ≡ strip source) × IsSource U r t
unfolding validate_source
validate_source-IsSource U source r t h =
    let (_, k) = >>-eq-ok (is_empty source) Invalid.source_required _ h in
    let (same, good) = classify_source-IsSource U (strip source) r t k in (same, rw same good)

no_errors-add_result :
    (i : ℕ) (v : Validated (Text × SourceType)) (later : Checked)
    → (add_result i v later).errors ≡ []
    → (later.errors ≡ []) × (v ∷ map ok later.sources ≡ map ok (add_result i v later).sources)
no_errors-add_result i (ok v) later h = (h, refl)
no_errors-add_result i (err e) later h = cc

check_lines-no_errors :
    (U : Unicode) (i : ℕ) (lines : List Text)
    → (check_lines U i lines).errors ≡ []
    → map (validate_source U) lines ≡ map ok (check_lines U i lines).sources
unfolding check_lines
check_lines-no_errors U i [] h = refl
check_lines-no_errors U i (line ∷ rest) h =
    let later = check_lines U (i + 1) rest in
    let (clean, e) = no_errors-add_result i (validate_source U line) later h in
    ap (λ vs. validate_source U line ∷ vs) (check_lines-no_errors U (i + 1) rest clean) ∙ e

all_or_errors-eq-ok :
    (c : Checked) (vs : List (Text × SourceType))
    → all_or_errors c.sources c.errors ≡ ok vs
    → (c.errors ≡ []) × (c.sources ≡ vs)
all_or_errors-eq-ok c vs h = ground arith

sources_of :
    (U : Unicode) (ls : List Text) (vs : List (Text × SourceType))
    → all_or_errors (check_lines U 1 ls).sources (check_lines U 1 ls).errors ≡ ok vs
    → map (validate_source U) ls ≡ map ok vs
sources_of U ls vs h =
    let (clean, e) = all_or_errors-eq-ok (check_lines U 1 ls) vs h in
    check_lines-no_errors U 1 ls clean ∙ ap (map ok) e

-- A submission that is accepted holds between one and ten lines that are not blank, every one of them
-- is valid, and the result lists their validated sources in order.
validate_sources-eq-map :
    (U : Unicode) (text : Text) (vs : List (Text × SourceType))
    → validate_sources U text ≡ ok vs
    → (map (validate_source U) (source_lines text) ≡ map ok vs)
      × (1 ≤ length (source_lines text))
      × (length (source_lines text) ≤ max_sources_per_submission)
unfolding validate_sources
validate_sources-eq-map U text vs h =
    let ls = source_lines text in
    let (_, h1) = >>-eq-ok (is_empty text) (InvalidSources.whole Invalid.sources_required) _ h in
    let (some_line, h2) =
      >>-eq-ok (no_lines ls) (InvalidSources.whole Invalid.sources_required) _ h1 in
    let (few, h3) =
      >>-eq-ok (ltb max_sources_per_submission (length ls))
        (InvalidSources.whole Invalid.sources_too_many) _ h2 in
    (sources_of U ls vs h3, one_line ls some_line, ground arith)
  where
    one_line : (ls : List Text) → no_lines ls ≡ false → 1 ≤ length ls
    one_line [] e = cc
    one_line (l ∷ ls) e = omega arith

-- An entry of the error report, for lines that are numbered from `i`.
abbrev pub IsReported : Unicode → ℕ → List Text → ℕ × Invalid → Type 0
IsReported U i lines (n, e) =
    (k : ℕ) × (l : Text) × (n ≡ i + k)
    × (get_elem? lines k ≡ some l)
    × (validate_source U l ≡ err e)

IsReported-cons :
    (U : Unicode) (i : ℕ) (line : Text) (rest : List Text) (es : List (ℕ × Invalid))
    → All (IsReported U (i + 1) rest) es
    → All (IsReported U i (line ∷ rest)) es
IsReported-cons U i line rest [] h = tt
IsReported-cons U i line rest ((n, e) ∷ es) ((k, l, at, found, bad), h) =
    ((suc k, l, omega arith, found, bad), IsReported-cons U i line rest es h)

All-add_result :
    (U : Unicode) (i : ℕ) (line : Text) (rest : List Text) (v : Validated (Text × SourceType))
    (later : Checked)
    → validate_source U line ≡ v
    → All (IsReported U i (line ∷ rest)) later.errors
    → All (IsReported U i (line ∷ rest)) (add_result i v later).errors
All-add_result U i line rest (ok v) later e h = h
All-add_result U i line rest (err x) later e h = ((0, line, omega arith, refl, e), h)

check_lines-IsReported :
    (U : Unicode) (i : ℕ) (lines : List Text)
    → All (IsReported U i lines) (check_lines U i lines).errors
unfolding check_lines
check_lines-IsReported U i [] = tt
check_lines-IsReported U i (line ∷ rest) =
    All-add_result U i line rest (validate_source U line) (check_lines U (i + 1) rest) refl
      (IsReported-cons U i line rest _ (check_lines-IsReported U (i + 1) rest))

all_or_errors-eq-err :
    (c : Checked) (es : List (ℕ × Invalid))
    → all_or_errors c.sources c.errors ≡ err (InvalidSources.lines es)
    → (c.errors ≡ es) × (es ≢ [])
all_or_errors-eq-err c es h = ground arith

raise_if-eq-err_lines :
    (b : Bool) (e : Invalid) (es : List (ℕ × Invalid))
    (k : Result InvalidSources (List (Text × SourceType)))
    → (raise_if b (InvalidSources.whole e) >> k) ≡ err (InvalidSources.lines es)
    → k ≡ err (InvalidSources.lines es)
raise_if-eq-err_lines true e es k h = cc
raise_if-eq-err_lines false e es k h = h

-- A report of bad lines is not empty, and every entry names, by its number counted from 1, a line that
-- is not blank and that the validator rejects with the reported error.
validate_sources_report :
    (U : Unicode) (text : Text) (es : List (ℕ × Invalid))
    → validate_sources U text ≡ err (InvalidSources.lines es)
    → (es ≢ []) × All (IsReported U 1 (source_lines text)) es
unfolding validate_sources
validate_sources_report U text es h =
    let ls = source_lines text in
    let h1 = raise_if-eq-err_lines (is_empty text) Invalid.sources_required es _ h in
    let h2 = raise_if-eq-err_lines (no_lines ls) Invalid.sources_required es _ h1 in
    let h3 =
      raise_if-eq-err_lines (ltb max_sources_per_submission (length ls)) Invalid.sources_too_many es
        _ h2 in
    let (e, nonempty) = all_or_errors-eq-err (check_lines U 1 ls) es h3 in
    (nonempty, rw (← e) (check_lines-IsReported U 1 ls))
