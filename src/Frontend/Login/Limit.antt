-- ===== src/Frontend/Login/Limit.antt =====
-- The rate limit of the login in frontend/app.py over the requests that one process handles in turn.
use all_debrid_proxy.Base.{
  ℕ, ◌+◌, ◌≤◌, ◌<◌, ◌≡◌, refl, Bool, true, false, ◌&&◌, List, [], ◌∷◌, ◌++◌, arith, leb,
  if◌then◌else◌, Bool-cases, inl, inr, Text, text_eq, text_eq→eq, filter, length, length-append,
  count_if, count_if-append, Result, ok, err,
}
use all_debrid_proxy.Frontend.Login.{
  login_max_attempts, Attempts, is_recent, save, Aborted, login_rate_check,
}

-- A POST of the login, by its address and its time; of a list of them the last one comes first.
abbrev pub Request : Type 0
Request = Text × ℕ

abbrev pub state_after : Result Aborted Attempts → Attempts → Attempts
state_after (ok attempts) before = attempts
state_after (err e) before = before

unfoldable pub attempts_after : List Request → Attempts
unfolding login_rate_check
attempts_after [] = λ ip. []
attempts_after ((ip, now) ∷ past) =
    let before = attempts_after past in state_after (login_rate_check ip now before) before

abbrev pub is_ok : Result Aborted Attempts → Bool
is_ok (ok attempts) = true
is_ok (err e) = false

-- The requests that were let through.
unfoldable pub passed : List Request → List Request
unfolding login_rate_check attempts_after
passed [] = []
passed ((ip, now) ∷ past) =
    let rest = passed past in
    if is_ok (login_rate_check ip now (attempts_after past)) then (ip, now) ∷ rest else rest

-- The times do not go back.
abbrev pub IsOrdered : ℕ → List Request → Type 0
IsOrdered now [] = Unit
IsOrdered now ((ip, t) ∷ past) = (t ≤ now) × IsOrdered t past

-- One of this address in the last five minutes.
abbrev pub is_counted : Text → ℕ → Request → Bool
is_counted ip now (other, t) = text_eq ip other && is_recent now t

-- What was recent before is no more so later.
count_if-recent :
    (now before : ℕ) (ts : List ℕ)
    → before ≤ now
    → count_if (is_recent now) (filter (is_recent before) ts) ≡ count_if (is_recent now) ts
count_if-recent now before [] le = refl
count_if-recent now before (t ∷ ts) le = ground (arith, count_if-recent now before ts le)

count-saved :
    (ip other : Text) (now before : ℕ) (attempts : Attempts)
    → before ≤ now
    → count_if
        (is_recent now)
        (save other (filter (is_recent before) (attempts other) ++ (before ∷ [])) attempts ip)
      ≡ count_if (is_recent now) (attempts ip)
        + (if is_counted ip now (other, before) then 1 else 0)
unfolding save
count-saved ip other now before attempts le = elim (Bool-cases (text_eq ip other)) [
  | inr e ↦ rw e (omega arith)
  | inl e ↦
      rw (e, text_eq→eq ip other e)
        (omega (
          arith,
          count_if-append (is_recent now) (filter (is_recent before) (attempts other))
              (before ∷ []),
          count_if-recent now before (attempts other) le,
        ))
]

later-IsOrdered :
    (t now : ℕ) (past : List Request) → t ≤ now → IsOrdered t past → IsOrdered now past
later-IsOrdered t now [] le h = tt
later-IsOrdered t now ((ip, s) ∷ past) le (before, h) = (omega (arith, le, before), h)

-- The attempts kept for an address are, as far as they are recent, those that were let through.
attempts-passed :
    (ip : Text) (now : ℕ) (past : List Request)
    → IsOrdered now past
    → count_if (is_recent now) (attempts_after past ip) ≡ count_if (is_counted ip now) (passed past)
unfolding attempts_after passed login_rate_check
attempts-passed ip now [] h = refl
attempts-passed ip now ((other, t) ∷ past) (le, ordered) =
    let before = attempts_after past in
    let recent = filter (is_recent t) (before other) in
    let same = attempts-passed ip now past (later-IsOrdered t now past le ordered) in
    elim (Bool-cases (leb login_max_attempts (length recent))) [
      | inl e ↦ rw (login_rate_check, e) same
      | inr e ↦ rw (login_rate_check, e) (omega (arith, same, count-saved ip other now t before le))
    ]

count_if-le : (p : ℕ → Bool) (ts : List ℕ) → count_if p ts ≤ length ts
count_if-le p [] = omega arith
count_if-le p (t ∷ ts) = ground (arith, count_if-le p ts)

length-save-le :
    (ip other : Text) (ts : List ℕ) (attempts : Attempts)
    → length ts ≤ login_max_attempts
    → length (attempts ip) ≤ login_max_attempts
    → length (save other ts attempts ip) ≤ login_max_attempts
unfolding save
length-save-le ip other ts attempts h g = elim (Bool-cases (text_eq ip other)) [
  | inl e ↦ rw e h
  | inr e ↦ rw e g
]

length-attempts_after-le :
    (ip : Text) (past : List Request) → length (attempts_after past ip) ≤ login_max_attempts
unfolding attempts_after login_rate_check
length-attempts_after-le ip [] = omega arith
length-attempts_after-le ip ((other, t) ∷ past) =
    let before = attempts_after past in
    let recent = filter (is_recent t) (before other) in
    let rest = length-attempts_after-le ip past in
    elim (Bool-cases (leb login_max_attempts (length recent))) [
      | inl e ↦ rw (login_rate_check, e) rest
      | inr e ↦
          let room : length recent < login_max_attempts = ground (arith, e) in
          rw (login_rate_check, e)
            (length-save-le ip other (recent ++ (t ∷ [])) before
              (omega (arith, room, length-append recent (t ∷ []))) rest)
    ]

-- However many requests one process of the frontend handles one after the other, in the five minutes before
-- any moment it let through at most 20 from one address; refused requests do not count. Each process counts for
-- itself.
pub passed-limit :
    (ip : Text) (now : ℕ) (requests : List Request)
    → IsOrdered now requests
    → count_if (is_counted ip now) (passed requests) ≤ login_max_attempts
passed-limit ip now requests ordered = omega (
  arith,
  attempts-passed ip now requests ordered,
  count_if-le (is_recent now) (attempts_after requests ip),
  length-attempts_after-le ip requests,
)
