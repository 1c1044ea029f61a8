-- ===== src/Frontend/Streaming/Range.antt =====
-- The ranges that `stream_video` of frontend/app.py serves.
use all_debrid_proxy.Base.{
  ℕ, zero, suc, ◌+◌, ◌-◌, ◌≤◌, ◌<◌, ◌≡◌, refl, sym, ap, ◌∙◌, subst, true, false, ◌⊎◌, inl, inr,
  Bool-cases, Option, none, not, ◌||◌, some, List, [], ◌∷◌, ◌++◌, arith, ltb, leb, pos, negsuc, ℤ,
  Text, codes, is_empty, starts_with, strip, split, take, drop, length, length-take, has_char, ◌≢◌,
  All-append, is_space, Result, ok, ◌>>=◌, >>-eq-ok, >>=-eq-ok,
}
use all_debrid_proxy.Base.Decimal.{
  decimal, AllDigits, decimal-AllDigits, decimal-ne-nil, strip-NoSpace, AllDigits-NoSpace,
  has_char-AllDigits, int_of, int_of-decimal,
}
use all_debrid_proxy.Base.Splitting.{split-append, split-eq_of_absent}
use all_debrid_proxy.Frontend.Streaming.{
  RangeError, or_invalid, bound, range_parts, range_between, last_byte, check_bounds, two_parts,
  parse_range, content_range_of, Partial, Answer, partial_content, stream_video,
}
use all_debrid_proxy.Frontend.Streaming.Body.{joined, body-joined}

-- Where a range begins: at the number, or at 0 where there is none.
abbrev pub IsStart : Text → ℕ → Type 0
IsStart part a =
    ((is_empty (strip part) ≡ true) × (a ≡ 0))
    ⊎ ((is_empty (strip part) ≡ false) × (int_of part ≡ some (pos a)))

-- Where it ends: at the number, or with the file where there is none.
abbrev pub IsEnd : ℕ → Text → ℕ → Type 0
IsEnd size part b =
    ((is_empty (strip part) ≡ true) × (suc b ≡ size))
    ⊎ ((is_empty (strip part) ≡ false) × (int_of part ≡ some (pos b)))

-- The bytes from `a` to `b` of a file of this size are what the two parts of a range ask for.
abbrev pub IsRange : ℕ → Text × Text → ℕ → ℕ → Type 0
IsRange size parts a b = IsStart parts.0 a × IsEnd size parts.1 b × (a ≤ b) × (b < size)

bound-eq-ok :
    (part : Text) (default n : ℤ)
    → bound part default ≡ ok n
    → ((is_empty (strip part) ≡ true) × (n ≡ default))
      ⊎ ((is_empty (strip part) ≡ false) × (int_of part ≡ some n))
unfolding bound
bound-eq-ok part default n h = elim (Bool-cases (is_empty (strip part))) [
  | inl e ↦ inl (e, sym (ok_inj (rw (bound, e) at h)))
  | inr e ↦ inr (e, parsed (int_of part) (rw (bound, e) at h))
]
  where
    ok_inj : {p q : ℤ} → ◌≡◌ {A = Result RangeError ℤ} (ok p) (ok q) → p ≡ q
    ok_inj h = cc

    parsed : (o : Option ℤ) → or_invalid o ≡ ok n → o ≡ some n
    parsed none h = cc
    parsed (some m) h = ap some (ok_inj h)

check_bounds-eq-ok :
    (size : ℕ) (start end : ℤ) (a b : ℕ)
    → check_bounds size start end ≡ ok (a, b)
    → (start ≡ pos a) × (end ≡ pos b) × (a ≤ b) × (b < size)
check_bounds-eq-ok size (negsuc x) end a b h = cc
check_bounds-eq-ok size (pos x) (negsuc y) a b h = cc
check_bounds-eq-ok size (pos x) (pos y) a b h =
    let (inside, same) =
      >>-eq-ok (leb size x || leb size y || ltb y x) RangeError.not_satisfiable (ok (x, y)) h in
    let e : x ≡ a = ap (λ p. p.0) (ok_inj same) in
    let f : y ≡ b = ap (λ p. p.1) (ok_inj same) in (ap pos e, ap pos f, ground arith, ground arith)
  where
    ok_inj : {p q : ℕ × ℕ} → ◌≡◌ {A = Result RangeError (ℕ × ℕ)} (ok p) (ok q) → p ≡ q
    ok_inj h = cc

pos_inj : {m n : ℕ} → pos m ≡ pos n → m ≡ n
pos_inj h = cc

bound-IsStart : (part : Text) (a : ℕ) → bound part (pos 0) ≡ ok (pos a) → IsStart part a
bound-IsStart part a h = elim (bound-eq-ok part (pos 0) (pos a) h) [
  | inl (e, same) ↦ inl (e, pos_inj same)
  | inr found ↦ inr found
]

bound-IsEnd :
    (size : ℕ) (part : Text) (b : ℕ) → bound part (last_byte size) ≡ ok (pos b) → IsEnd size part b
bound-IsEnd size part b h = elim (bound-eq-ok part (last_byte size) (pos b) h) [
  | inl (e, same) ↦ inl (e, last size same)
  | inr found ↦ inr found
]
  where
    last : (size : ℕ) → pos b ≡ last_byte size → suc b ≡ size
    last zero h = cc
    last (suc n) h = ap suc (pos_inj h)

range_between-IsRange :
    (size : ℕ) (parts : Text × Text) (a b : ℕ)
    → range_between size parts ≡ ok (a, b)
    → IsRange size parts a b
unfolding range_between
range_between-IsRange size parts a b h =
    let check : ℤ → Result RangeError (ℕ × ℕ) =
      λ start. bound parts.1 (last_byte size) >>= λ end. check_bounds size start end in
    let (start, from, more) = >>=-eq-ok (bound parts.0 (pos 0)) check h in
    let (end, to, checked) =
      >>=-eq-ok (bound parts.1 (last_byte size)) (λ end. check_bounds size start end) more in
    let (e, f, le, lt) = check_bounds-eq-ok size start end a b checked in
    (bound-IsStart parts.0 a (from ∙ ap ok e), bound-IsEnd size parts.1 b (to ∙ ap ok f), le, lt)

-- What a header asks for, if it is served.
parse_range-IsRange :
    (size : ℕ) (header : Text) (a b : ℕ)
    → parse_range size header ≡ ok (a, b)
    → (parts : Text × Text) × (starts_with header (codes "bytes=") ≡ true)
      × (two_parts (range_parts header) ≡ ok parts)
      × IsRange size parts a b
unfolding parse_range
parse_range-IsRange size header a b h =
    let (begins, more) =
      >>-eq-ok (not (starts_with header (codes "bytes="))) RangeError.not_satisfiable _ h in
    let (parts, two, found) =
      >>=-eq-ok (two_parts (range_parts header)) (range_between size) more in
    (parts, ground arith, two, range_between-IsRange size parts a b found)

length-drop : (n : ℕ) (xs : List ℕ) → length (drop n xs) ≡ length xs - n
length-drop zero xs = omega arith
length-drop (suc n) [] = omega arith
length-drop (suc n) (x ∷ xs) = omega (arith, length-drop n xs)

-- The bytes of the file from `a` to `b`, with the headers that tell of them.
abbrev pub IsServed : List ℕ → Partial → ℕ → ℕ → Type 0
IsServed content p a b =
    (a ≤ b)
    × (b < length content)
    × (joined p.chunks ≡ take (b - a + 1) (drop a content))
    × (p.content_length ≡ length (joined p.chunks))
    × (p.content_range
        ≡ codes "bytes "
          ++ (decimal a ++ (b'-' ∷ (decimal b ++ (b'/' ∷ decimal (length content))))))

partial_content-IsServed :
    (content : List ℕ) (a b : ℕ)
    → a ≤ b
    → b < length content
    → IsServed content (partial_content content (a, b)) a b
unfolding partial_content content_range_of
partial_content-IsServed content a b le lt =
    let sent = body-joined content a (b - a + 1) in
    let counted : b - a + 1 ≡ length (take (b - a + 1) (drop a content)) =
      omega (arith, length-take (b - a + 1) (drop a content), length-drop a content) in
    (le, lt, sent, counted ∙ ap length (sym sent), refl)

-- What is sent for a range that is served: the header begins with "bytes=", its first range has two parts, and
-- exactly the bytes of the file from the number in the first part (or from the start of the file, if it is blank)
-- to the number in the second part (or to the end of the file) are sent. They lie in the file and are not
-- none, and the headers of the answer tell so.
pub stream_video-partial :
    (content : List ℕ) (header : Text) (p : Partial)
    → stream_video content (some header) ≡ ok (Answer.partial p)
    → (a : ℕ) × (b : ℕ) × (parts : Text × Text) × (starts_with header (codes "bytes=") ≡ true)
      × (two_parts (range_parts header) ≡ ok parts)
      × IsRange (length content) parts a b
      × IsServed content p a b
unfolding stream_video
stream_video-partial content [] p h = cc
stream_video-partial content (c ∷ s) p h =
    let (range, found, same) =
      >>=-eq-ok (parse_range (length content) (c ∷ s))
        (λ range. ok (Answer.partial (partial_content content range))) h in
    let (parts, begins, two, asked) =
      parse_range-IsRange (length content) (c ∷ s) range.0 range.1 found in
    let (_, _, le, lt) = asked in
    (
      range.0,
      range.1,
      parts,
      begins,
      two,
      asked,
      subst (λ p. IsServed content p range.0 range.1) (partial_inj same)
          (partial_content-IsServed content range.0 range.1 le lt),
    )
  where
    partial_inj :
        {p q : Partial}
        → ◌≡◌ {A = Result RangeError Answer} (ok (Answer.partial p)) (ok (Answer.partial q))
        → p ≡ q
    partial_inj h = cc

-- The header of a client that asks for the bytes from `a` to `b`.
abbrev pub range_text : ℕ → ℕ → Text
range_text a b = codes "bytes=" ++ (decimal a ++ (b'-' ∷ decimal b))

dash : is_space b'-' ≡ false
unfolding is_space
dash = refl

range_parts-digits :
    (s t : Text)
    → AllDigits s
    → AllDigits t
    → range_parts (codes "bytes=" ++ (s ++ (b'-' ∷ t))) ≡ s ∷ t ∷ []
unfolding range_parts
range_parts-digits s t hs ht =
    rw (no_comma, no_space, split-append b'-' s t, one s hs, one t ht) refl
  where
    one : (s : Text) → AllDigits s → split b'-' s ≡ s ∷ []
    one s h = split-eq_of_absent b'-' s (has_char-AllDigits b'-' s refl h)

    has_char-append :
        (sep : ℕ) (s t : Text)
        → has_char sep s ≡ false
        → has_char sep t ≡ false
        → has_char sep (s ++ t) ≡ false
    has_char-append sep [] t h k = k
    has_char-append sep (c ∷ s) t h k = ground (arith, has_char-append sep s t)

    no_comma : split b',' (s ++ (b'-' ∷ t)) ≡ (s ++ (b'-' ∷ t)) ∷ []
    no_comma = split-eq_of_absent b',' (s ++ (b'-' ∷ t)) (
        has_char-append b',' s (b'-' ∷ t) (has_char-AllDigits b',' s refl hs)
          (has_char-AllDigits b',' t refl ht))

    no_space : strip (s ++ (b'-' ∷ t)) ≡ s ++ (b'-' ∷ t)
    no_space = strip-NoSpace (s ++ (b'-' ∷ t)) (
        All-append (λ c. is_space c ≡ false) s (b'-' ∷ t) (AllDigits-NoSpace s hs)
          (dash, AllDigits-NoSpace t ht))

bound-decimal : (n : ℕ) (default : ℤ) → bound (decimal n) default ≡ ok (pos n)
unfolding bound
bound-decimal n default =
    rw
      (
        int_of-decimal n,
        strip-NoSpace (decimal n) (AllDigits-NoSpace (decimal n) (decimal-AllDigits n)),
        filled (decimal n) (decimal-ne-nil n),
      )
      refl
  where
    filled : (s : Text) → s ≢ [] → is_empty s ≡ false
    filled [] h = absurd (h refl)
    filled (c ∷ s) h = refl

-- The header that asks for the bytes from `a` to `b` of a file that has them is read as this range.
pub parse_range-range_text :
    (size a b : ℕ) → a ≤ b → b < size → parse_range size (range_text a b) ≡ ok (a, b)
unfolding parse_range range_between
parse_range-range_text size a b le lt =
    rw
      (
        range_parts-digits (decimal a) (decimal b) (decimal-AllDigits a) (decimal-AllDigits b),
        bound-decimal a (pos 0),
        bound-decimal b (last_byte size),
        inside,
      )
      refl
  where
    inside : (leb size a || leb size b || ltb b a) ≡ false
    inside = ground arith

-- A header that asks for the last `n` bytes, `bytes=-n`, is read as the range of the first `n + 1` bytes.
parse_range-suffix :
    (size n : ℕ) → n < size → parse_range size (codes "bytes=-" ++ decimal n) ≡ ok (0, n)
unfolding parse_range range_between
parse_range-suffix size n lt =
    rw
      (
        range_parts-digits [] (decimal n) tt (decimal-AllDigits n),
        bound-decimal n (last_byte size),
        inside,
      )
      refl
  where
    inside : (leb size 0 || leb size n || ltb n 0) ≡ false
    inside = ground arith
