-- ===== src/RateLimiter/Laws.antt =====
-- The sliding window of app/rate_limiter.py over sequences of requests.
use all_debrid_proxy.Base.{
  ℕ, ◌+◌, ◌-◌, ◌≤◌, ◌<◌, ◌≡◌, refl, ap, ◌∙◌, Bool, true, false, not, ◌&&◌, List, [], ◌∷◌, arith,
  leb, ltb, if◌then◌else◌, Bool-cases, inl, inr, Text, text_eq, count_if, Result, ok, err,
}
use all_debrid_proxy.RateLimiter.{
  SortedSets, redis_key, within_limit, check_rate_limit, get_remaining,
}

-- The score is later than `t`.
abbrev pub later_than : ℕ → Text → ℕ → Bool
later_than t m x = ltb t x

module _ (R : SortedSets) (key : Text) where
  count_mono :
      (p q : Text → ℕ → Bool) (s : R.State)
      → ((m : Text) (x : ℕ) → p m x ≡ true → q m x ≡ true)
      → R.count key p s ≤ R.count key q s
  count_mono p q s h =
      let split = R.count-split key q p s in
      let same : R.count key (λ m x. q m x && p m x) s ≡ R.count key p s =
        ap (λ f. R.count key f s) (λ i m x. both (q m x) (p m x) (h m x) i) in
      omega (arith, split, same)
    where
      both : (a b : Bool) → (b ≡ true → a ≡ true) → (a && b) ≡ b
      both true b f = refl
      both false true f = f refl
      both false false f = refl

  -- What is not later than the start of the window is purged, and nothing else.
  count-purged :
      (start t : ℕ) (s : R.State)
      → start ≤ t
      → R.count key (later_than t) (R.zremrangebyscore key 0 start s) ≡ R.count key (later_than t) s
  count-purged start t s h =
      R.count-zremrangebyscore key (later_than t) 0 start s
      ∙ ap (λ f. R.count key f s) (λ i m x. kept x i)
    where
      kept : (x : ℕ) → (ltb t x && not (leb 0 x && leb x start)) ≡ ltb t x
      kept x = ground arith

  -- A member with a fresh name is one more.
  count-zadd_fresh :
      (p : Text → ℕ → Bool) (member : Text) (score : ℕ) (s : R.State)
      → R.count key (λ m x. text_eq m member) s ≡ 0
      → R.count key p (R.zadd key member score s)
        ≡ R.count key p s + (if p member score then 1 else 0)
  count-zadd_fresh p member score s fresh =
      let split = R.count-split key p (λ m x. text_eq m member) s in
      let none_there =
        count_mono (λ m x. p m x && text_eq m member) (λ m x. text_eq m member) s
          (λ m x h. right (p m x) (text_eq m member) h) in
      omega (arith, R.count-zadd key p member score s, split, none_there, fresh)
    where
      right : (a b : Bool) → (a && b) ≡ true → b ≡ true
      right true b h = h
      right false b h = cc

-- No member of the set has this name.
abbrev pub IsFresh : (R : SortedSets) → Text → Text → R.State → Type 0
IsFresh R key member s = R.count (redis_key key) (λ m x. text_eq m member) s ≡ 0

module _ (R : SortedSets) (key : Text) (max_requests window : ℕ) where
  -- A request is recorded whether it is let through or not: the scores in the window are one more.
  check_rate_limit-records :
      (now t : ℕ) (member : Text) (s : R.State)
      → IsFresh R key member s
      → now - window ≤ t
      → R.count
          (redis_key key)
          (later_than t)
          (check_rate_limit R key max_requests window now member s).store
        ≡ R.count (redis_key key) (later_than t) s + (if ltb t now then 1 else 0)
  unfolding check_rate_limit
  check_rate_limit-records now t member s fresh h =
      let k = redis_key key in
      let purged = R.zremrangebyscore k 0 (now - window) s in
      let names : Text → ℕ → Bool = λ m x. text_eq m member in
      let still_fresh : R.count k names purged ≡ 0 =
        let fewer =
          count_mono R k (λ m x. names m x && not (leb 0 x && leb x (now - window))) names s
            (λ m x h. left (names m x) (not (leb 0 x && leb x (now - window))) h) in
        omega (arith, R.count-zremrangebyscore k names 0 (now - window) s, fewer, fresh) in
      R.count-expire k (later_than t) (window + 1) (R.zadd k member now purged)
      ∙ count-zadd_fresh R k (later_than t) member now purged still_fresh
      ∙ ap (λ n. n + (if ltb t now then 1 else 0)) (count-purged R k (now - window) t s h)
    where
      left : (a b : Bool) → (a && b) ≡ true → a ≡ true
      left true b h = refl
      left false b h = cc

  -- A request that is let through finds fewer requests in its window than the limit.
  accepted-lt :
      (now : ℕ) (member : Text) (s : R.State)
      → (check_rate_limit R key max_requests window now member s).result ≡ ok true
      → R.count (redis_key key) (later_than (now - window)) s < max_requests
  unfolding check_rate_limit
  accepted-lt now member s h =
      let k = redis_key key in
      let purged = R.zremrangebyscore k 0 (now - window) s in
      let below = found (R.zcard k purged) h in
      let all = count_mono R k (later_than (now - window)) (λ m x. true) purged (λ m x h. refl) in
      omega (
        arith,
        below,
        all,
        R.zcard-eq k purged,
        count-purged R k (now - window) (now - window) s (omega arith),
      )
    where
      found : (n : ℕ) → within_limit max_requests n ≡ ok true → n < max_requests
      found n e = elim (Bool-cases (leb max_requests n)) [
        | inl b ↦ refused (rw b at e)
        | inr b ↦ ground arith
      ]
        where
          refused : {A : Type 0} → ◌≡◌ {A = Result ℕ Bool} (err n) (ok true) → A
          refused h = cc

  -- A sequence of requests under one key: the times of those that were let through, the time of the
  -- last request, and the state. The clock does not go back, and the names of members are fresh.
  pub data Run : List ℕ → ℕ → R.State → Type 0 where
    first : (now : ℕ) (s : R.State) → Run [] now s
    accepted :
        {times : List ℕ} {last : ℕ} {s : R.State} (now : ℕ) (member : Text)
        → Run times last s
        → last ≤ now
        → IsFresh R key member s
        → (check_rate_limit R key max_requests window now member s).result ≡ ok true
        → Run (now ∷ times) now (check_rate_limit R key max_requests window now member s).store
    rejected :
        {times : List ℕ} {last : ℕ} {s : R.State} (now n : ℕ) (member : Text)
        → Run times last s
        → last ≤ now
        → IsFresh R key member s
        → (check_rate_limit R key max_requests window now member s).result ≡ err n
        → Run times now (check_rate_limit R key max_requests window now member s).store

  -- Every request of the window that was let through is still in the set.
  IsRecorded : List ℕ → ℕ → R.State → Type 0
  IsRecorded times last s =
      (t : ℕ)
      → last - window ≤ t
      → count_if (ltb t) times ≤ R.count (redis_key key) (later_than t) s

  Run-IsRecorded :
      {times : List ℕ} {last : ℕ} {s : R.State} → Run times last s → IsRecorded times last s
  unfolding IsRecorded
  Run-IsRecorded (first now s) t h = omega arith
  Run-IsRecorded (accepted {times} {last} {s} now member run order fresh h) t le =
      let before = Run-IsRecorded run t (omega arith) in
      let after = check_rate_limit-records now t member s fresh le in omega (arith, before, after)
  Run-IsRecorded (rejected {times} {last} {s} now n member run order fresh h) t le =
      let before = Run-IsRecorded run t (omega arith) in
      let after = check_rate_limit-records now t member s fresh le in omega (arith, before, after)

  count_if-antitone :
      (a b : ℕ) (times : List ℕ) → a ≤ b → count_if (ltb b) times ≤ count_if (ltb a) times
  count_if-antitone a b [] h = omega arith
  count_if-antitone a b (x ∷ xs) h = ground (arith, count_if-antitone a b xs h)

  -- Of the requests that were let through, at most `max_requests` lie in the window that ends at the
  -- last request, whatever was in the set before.
  pub Run-limit :
      {times : List ℕ} {last : ℕ} {s : R.State}
      → Run times last s
      → count_if (ltb (last - window)) times ≤ max_requests
  unfolding IsRecorded
  Run-limit (first now s) = omega arith
  Run-limit (accepted {times} {last} {s} now member run order fresh h) =
      let recorded = Run-IsRecorded run (now - window) (omega arith) in
      let below = accepted-lt now member s h in
      let one : (if ltb (now - window) now then 1 else 0) ≤ 1 = ground arith in
      omega (arith, recorded, below, one)
  Run-limit (rejected {times} {last} {s} now n member run order fresh h) =
      let before = Run-limit run in
      let fewer = count_if-antitone (last - window) (now - window) times (omega arith) in
      omega (arith, before, fewer)

  -- If requests remain and no score lies in the future, the next request is let through.
  check_rate_limit-get_remaining :
      (now : ℕ) (member : Text) (s : R.State)
      → 1 ≤ get_remaining R key max_requests window now s
      → R.count (redis_key key) (later_than now) s ≡ 0
      → (check_rate_limit R key max_requests window now member s).result ≡ ok true
  unfolding check_rate_limit get_remaining
  check_rate_limit-get_remaining now member s h past =
      let k = redis_key key in
      let purged = R.zremrangebyscore k 0 (now - window) s in
      let inside : Text → ℕ → Bool = λ m x. true && not (leb 0 x && leb x (now - window)) in
      let split = R.count-split k inside (later_than now) s in
      let future =
        count_mono R k (λ m x. inside m x && later_than now m x) (later_than now) s
          (λ m x h. second (inside m x) (later_than now m x) h) in
      let counted =
        count_mono R k (λ m x. inside m x && not (later_than now m x))
          (λ m x. leb (now - window) x && leb x now) s (λ m x h. in_range x h) in
      let kept = R.count-zremrangebyscore k (λ m x. true) 0 (now - window) s in
      let few : R.zcard k purged < max_requests = omega (
        arith,
        R.zcard-eq k purged,
        kept,
        split,
        future,
        counted,
        past,
        R.zcount-eq k (now - window) now s,
        h,
      ) in
      passes (R.zcard k purged) few
    where
      second : (a b : Bool) → (a && b) ≡ true → b ≡ true
      second true b h = h
      second false b h = cc

      in_range :
          (x : ℕ)
          → ((true && not (leb 0 x && leb x (now - window))) && not (ltb now x)) ≡ true
          → (leb (now - window) x && leb x now) ≡ true
      in_range x h = ground arith

      passes : (n : ℕ) → n < max_requests → within_limit max_requests n ≡ ok true
      passes n lt = ground arith
