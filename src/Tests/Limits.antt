-- ===== src/Tests/Limits.antt =====
-- The rate limiter at concrete inputs.
use all_debrid_proxy.Base.{
  ◌-◌, ◌≤◌, ◌≡◌, refl, true, [], ◌∷◌, arith, ltb, Text, codes, count_if, ok, err, text_eq,
}
use all_debrid_proxy.RateLimiter.{check_rate_limit}
use all_debrid_proxy.RateLimiter.Laws.{IsFresh, first, accepted, rejected, Run-limit}
use all_debrid_proxy.RateLimiter.Memory.{Sets, memory}

abbrev key : Text
key = codes "api"

abbrev nothing_yet : Sets
nothing_yet = λ k. []

-- One request for every ten seconds.
abbrev after_first : Sets
after_first = (check_rate_limit memory key 1 10 20 (codes "a") nothing_yet).store

first_passes : (check_rate_limit memory key 1 10 20 (codes "a") nothing_yet).result ≡ ok true
unfolding check_rate_limit text_eq
first_passes = refl

second-IsFresh : IsFresh memory key (codes "b") after_first
unfolding check_rate_limit text_eq
second-IsFresh = refl

second_is_refused : (check_rate_limit memory key 1 10 25 (codes "b") after_first).result ≡ err 1
unfolding check_rate_limit text_eq
second_is_refused = refl

Run-limit_example : count_if (ltb (25 - 10)) (20 ∷ []) ≤ 1
Run-limit_example = Run-limit memory key 1 10 (
    rejected 25 1 (codes "b")
      (accepted 20 (codes "a") (first 5 nothing_yet) (omega arith) refl first_passes) (omega arith)
      second-IsFresh second_is_refused)
