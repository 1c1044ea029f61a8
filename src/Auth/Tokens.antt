-- ===== src/Auth/Tokens.antt =====
-- Which tokens of app/auth.py open which event stream, and the promises of `Keys` kept in memory.
use all_debrid_proxy.Base.{
  ℕ, ◌+◌, ◌≤◌, ◌≡◌, ◌≢◌, refl, sym, ◌∙◌, Bool, true, false, ◌&&◌, Option, none, some, List, ◌∷◌, [],
  ◌++◌, arith, ltb, if◌then◌else◌, Text, text_eq, has_char, ok, any, All, ◌||◌,
}
use all_debrid_proxy.Constants.{sse_token_expiry}
use all_debrid_proxy.Auth.{Keys, sse_key, generate_sse_token, verify_sse_token, verify_sse_access}

text_eq-absent : (c : ℕ) (s t b : Text) → has_char c b ≡ false → text_eq (s ++ (c ∷ t)) b ≡ false
unfolding text_eq
text_eq-absent c [] t [] h = refl
text_eq-absent c [] t (x ∷ b) h = ground arith
text_eq-absent c (y ∷ s) t [] h = refl
text_eq-absent c (y ∷ s) t (x ∷ b) h = ground (arith, text_eq-absent c s t b)

-- Neither of the last two texts has the character, so it parts both sides at the same place.
text_eq-parted :
    (c : ℕ) (a' b' a b : Text)
    → has_char c a ≡ false
    → has_char c b ≡ false
    → text_eq (a' ++ (c ∷ b')) (a ++ (c ∷ b)) ≡ text_eq a' a && text_eq b' b
unfolding text_eq
text_eq-parted c [] b' [] b ha hb = ground arith
text_eq-parted c [] b' (x ∷ a) b ha hb = ground arith
text_eq-parted c (y ∷ a') b' [] b ha hb = ground (arith, text_eq-absent c a' b' b hb)
text_eq-parted c (y ∷ a') b' (x ∷ a) b ha hb = ground (arith, text_eq-parted c a' b' a b)

-- A task and a token without a colon have a key of their own.
text_eq-sse_key :
    (task token task' token' : Text)
    → has_char b':' task ≡ false
    → has_char b':' token ≡ false
    → text_eq (sse_key task' token') (sse_key task token)
      ≡ text_eq task' task && text_eq token' token
unfolding text_eq
text_eq-sse_key task token task' token' h1 h2 = text_eq-parted b':' task' token' task token h1 h2

text_eq-empty : (s : Text) → s ≢ [] → text_eq [] s ≡ false
unfolding text_eq
text_eq-empty [] h = elim (h refl) [ ]
text_eq-empty (c ∷ s) h = refl

&&_false_right : (b : Bool) → (b && false) ≡ false
&&_false_right true = refl
&&_false_right false = refl

-- A call of `generate_sse_token`: the task, the token that was drawn, and the time.
pub record Issue : Type 0 where
  pub task_id : Text
  pub token : Text
  pub at : ℕ

-- Neither the validated id nor the token of `token_urlsafe` has a colon, and the token is not empty.
abbrev pub IsProper : Issue → Type 0
IsProper i = (has_char b':' i.task_id ≡ false) × (has_char b':' i.token ≡ false) × (i.token ≢ [])

abbrev pub is_open : Text → Text → ℕ → Issue → Bool
is_open task_id token t i =
    text_eq task_id i.task_id && text_eq token i.token && ltb t (i.at + sse_token_expiry)

module _ (K : Keys) where
  -- A new token opens the stream of the one task that it was made for, for an hour and not longer, and
  -- changes nothing for other tasks and other tokens, whatever texts are asked for.
  verify_sse_token-generate_sse_token :
      (task token task' token' : Text) (now t : ℕ) (s : K.State)
      → has_char b':' task ≡ false
      → has_char b':' token ≡ false
      → token ≢ []
      → now ≤ t
      → verify_sse_token K task' token' t (generate_sse_token K task token now s) ≡ (
          if text_eq task' task && text_eq token' token
          then ltb t (now + sse_token_expiry)
          else verify_sse_token K task' token' t s)
  unfolding verify_sse_token generate_sse_token
  verify_sse_token-generate_sse_token task token task' [] now t s h1 h2 h3 le =
      rw (text_eq-empty token h3, &&_false_right (text_eq task' task)) refl
  verify_sse_token-generate_sse_token task token task' (c ∷ token') now t s h1 h2 h3 le =
      K.exists-setex _ _ sse_token_expiry now t s le
      ∙ rw (text_eq-sse_key task token task' (c ∷ token') h1 h2) refl

  -- The store after these calls, of which the last one comes first.
  abbrev pub issue_all : List Issue → K.State
  issue_all [] = K.flushed
  issue_all (i ∷ is) = generate_sse_token K i.task_id i.token i.at (issue_all is)

  verify_sse_token-issue_all :
      (task_id token : Text) (t : ℕ) (is : List Issue)
      → All IsProper is
      → All (λ (i : Issue). i.at ≤ t) is
      → verify_sse_token K task_id token t (issue_all is) ≡ true
      → any (is_open task_id token t) is ≡ true
  unfolding verify_sse_token
  verify_sse_token-issue_all task_id [] t [] hs ts h = cc
  verify_sse_token-issue_all task_id (c ∷ token) t [] hs ts h =
      sym (K.exists-flushed (sse_key task_id (c ∷ token)) t) ∙ h
  verify_sse_token-issue_all task_id token t (i ∷ is) (h1, hs) (t1, ts) h =
      let (plain, drawn, present) = h1 in
      let e =
        verify_sse_token-generate_sse_token i.task_id i.token task_id token i.at t (issue_all is)
          plain drawn present t1 in
      either (text_eq task_id i.task_id) (text_eq token i.token) (ltb t (i.at + sse_token_expiry))
        (verify_sse_token-issue_all task_id token t is hs ts) (sym e ∙ h)
    where
      either :
          (a b c : Bool)
          → (verify_sse_token K task_id token t (issue_all is) ≡ true
              → any (is_open task_id token t) is ≡ true)
          → (if a && b then c else verify_sse_token K task_id token t (issue_all is)) ≡ true
          → ((a && b && c) || any (is_open task_id token t) is) ≡ true
      either a b c before h = grind arith

  -- Whoever passes the check of the event stream has a token that was made for this very task, less than
  -- an hour before, whatever the task id and the token of the request are.
  pub verify_sse_access-is_open :
      (task_id : Text) (sent : Option Text) (t : ℕ) (is : List Issue)
      → All IsProper is
      → All (λ (i : Issue). i.at ≤ t) is
      → verify_sse_access K task_id sent t (issue_all is) ≡ ok tt
      → (token : Text) × (sent ≡ some token) × (any (is_open task_id token t) is ≡ true)
  unfolding verify_sse_access
  verify_sse_access-is_open task_id none t is hs ts h = cc
  verify_sse_access-is_open task_id (some token) t is hs ts h =
      (token, refl, verify_sse_token-issue_all task_id token t is hs ts (ground (arith, h)))

-- Keys in memory, with the time at which each goes.
abbrev pub held : Text → ℕ → List (Text × ℕ) → Bool
held key t [] = false
held key t ((k, end) ∷ ks) = if text_eq key k then ltb t end else held key t ks

abbrev pub memory : Keys
memory = record {
  State = List (Text × ℕ);
  setex = λ key seconds now ks. (key, now + seconds) ∷ ks;
  exists = held;
  flushed = [];
  exists-flushed = λ key t. refl;
  exists-setex = λ key other seconds now t s le. refl;
}
