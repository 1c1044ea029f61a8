-- ===== src/Auth.antt =====
-- app/auth.py: the worker key, and the tokens of the event stream. `Keys` is what the tokens ask of Redis:
-- a key that SETEX stores is there until its seconds have passed. The state is that after the last
-- command, and `exists` is asked at a time that is not earlier. `secrets.token_urlsafe` gives the token.
pub mod Tokens
use all_debrid_proxy.Base.{
  ℕ, ◌+◌, ◌≤◌, ◌≡◌, Bool, true, false, not, ◌&&◌, ◌||◌, Option, none, some, ◌∷◌, [], ◌++◌, ltb,
  if◌then◌else◌, Text, codes, is_empty, text_eq, ok, err, raise_if, ◌>>◌,
}
use all_debrid_proxy.Constants.{sse_token_expiry}
use all_debrid_proxy.Api.Errors
use all_debrid_proxy.Api.Errors.{HttpError, Response}

pub record Keys : Type 1 where
  pub State : Type 0
  pub setex : Text → ℕ → ℕ → State → State
  pub exists : Text → ℕ → State → Bool
  pub flushed : State
  pub exists-flushed : (key : Text) (t : ℕ) → exists key t flushed ≡ false
  pub exists-setex :
      (key other : Text) (seconds now t : ℕ) (s : State)
      → now ≤ t
      → exists other t (setex key seconds now s)
        ≡ (if text_eq other key then ltb t (now + seconds) else exists other t s)

-- `f"sse_token:{task_id}:{token}"`
abbrev pub sse_key : Text → Text → Text
sse_key task_id token = codes "sse_token:" ++ task_id ++ (b':' ∷ token)

-- `generate_sse_token`, for the token that was drawn
unfoldable pub generate_sse_token : (K : Keys) → Text → Text → ℕ → K.State → K.State
generate_sse_token K task_id token now s = K.setex (sse_key task_id token) sse_token_expiry now s

unfoldable pub verify_sse_token : (K : Keys) → Text → Text → ℕ → K.State → Bool
verify_sse_token K task_id token t s =
    if is_empty token then false else K.exists (sse_key task_id token) t s

-- `x or y` of two optional texts
abbrev pub or_text : Option Text → Option Text → Option Text
or_text (some (c ∷ s)) y = some (c ∷ s)
or_text _ y = y

-- `not provided_key or provided_key != settings.WORKER_API_KEY`
abbrev pub is_refused : Text → Option Text → Bool
is_refused worker_key none = true
is_refused worker_key (some key) = is_empty key || not (text_eq key worker_key)

unfoldable pub verify_worker_key : Text → Option Text → Option Text → Response (Unit {0})
unfolding text_eq
verify_worker_key worker_key x_worker_key key =
    raise_if (is_refused worker_key (or_text x_worker_key key)) HttpError.unauthorized

unfoldable pub verify_sse_access :
    (K : Keys) → Text → Option Text → ℕ → K.State → Response (Unit {0})
unfolding verify_sse_token
verify_sse_access K task_id none t s = err HttpError.unauthorized
verify_sse_access K task_id (some token) t s =
    raise_if (is_empty token || not (verify_sse_token K task_id token t s)) HttpError.unauthorized
