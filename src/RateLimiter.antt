-- ===== src/RateLimiter.antt =====
-- app/rate_limiter.py: the sliding window over a sorted set of Redis.
-- `SortedSets` is what the limiter asks of Redis, for the state of the server at the moment of a call:
-- `count key p` is the number of members of a sorted set, given with their scores, that have the
-- property `p`, and each law is the documentation of one command on the set that it names. Members that
-- expire count as removed. Times are numbers; the clock counts from 1970, so `now - window` is the
-- time at which the window starts.
pub mod Laws
pub mod Memory
use all_debrid_proxy.Base.{
  ℕ, ◌+◌, ◌-◌, ◌≡◌, Bool, true, false, not, ◌&&◌, leb, if◌then◌else◌, Text, codes, ◌++◌, text_eq,
  Result, ok, err,
}

pub record SortedSets : Type 1 where
  pub State : Type 0
  pub count : Text → (Text → ℕ → Bool) → State → ℕ
  pub zremrangebyscore : Text → ℕ → ℕ → State → State
  pub zcard : Text → State → ℕ
  pub zcount : Text → ℕ → ℕ → State → ℕ
  pub zadd : Text → Text → ℕ → State → State
  pub expire : Text → ℕ → State → State
  pub delete : Text → State → State
  -- What holds of any count.
  pub count-split :
      (key : Text) (p q : Text → ℕ → Bool) (s : State)
      → count key p s
        ≡ count key (λ m x. p m x && q m x) s + count key (λ m x. p m x && not (q m x)) s
  -- The range has both its ends.
  pub count-zremrangebyscore :
      (key : Text) (p : Text → ℕ → Bool) (lo hi : ℕ) (s : State)
      → count key p (zremrangebyscore key lo hi s)
        ≡ count key (λ m x. p m x && not (leb lo x && leb x hi)) s
  pub zcard-eq : (key : Text) (s : State) → zcard key s ≡ count key (λ m x. true) s
  pub zcount-eq :
      (key : Text) (lo hi : ℕ) (s : State)
      → zcount key lo hi s ≡ count key (λ m x. leb lo x && leb x hi) s
  -- A member that is there already gets the new score.
  pub count-zadd :
      (key : Text) (p : Text → ℕ → Bool) (member : Text) (score : ℕ) (s : State)
      → count key p (zadd key member score s)
        ≡ count key (λ m x. p m x && not (text_eq m member)) s + (if p member score then 1 else 0)
  pub count-expire :
      (key : Text) (p : Text → ℕ → Bool) (seconds : ℕ) (s : State)
      → count key p (expire key seconds s) ≡ count key p s
  pub count-delete : (key : Text) (p : Text → ℕ → Bool) (s : State) → count key p (delete key s) ≡ 0

-- `f"ratelimit:{key}"`
abbrev pub redis_key : Text → Text
redis_key key = codes "ratelimit:" ++ key

-- What a call returns, or the `current_count` of the `RateLimitError`, and the state that it leaves.
pub record Answer (R : SortedSets) : Type 0 where
  pub result : Result ℕ Bool
  pub store : R.State

-- The test at the end, `raise RateLimitError(...)`.
abbrev pub within_limit : ℕ → ℕ → Result ℕ Bool
within_limit max_requests current_count =
    if leb max_requests current_count then err current_count else ok true

-- `unique_key` is the name of the new member.
unfoldable pub check_rate_limit : (R : SortedSets) → Text → ℕ → ℕ → ℕ → Text → R.State → Answer R
check_rate_limit R key max_requests window_seconds now unique_key s =
    let purged = R.zremrangebyscore (redis_key key) 0 (now - window_seconds) s in
    record {
      result = within_limit max_requests (R.zcard (redis_key key) purged);
      store =
          R.expire (redis_key key) (window_seconds + 1)
            (R.zadd (redis_key key) unique_key now purged);
    }

-- `max(0, max_requests - count)`: subtraction on ℕ stops at 0.
unfoldable pub get_remaining : (R : SortedSets) → Text → ℕ → ℕ → ℕ → R.State → ℕ
get_remaining R key max_requests window_seconds now s =
    max_requests - R.zcount (redis_key key) (now - window_seconds) now s

unfoldable pub reset : (R : SortedSets) → Text → R.State → R.State
reset R key s = R.delete (redis_key key) s
