-- ===== src/RateLimiter/Memory.antt =====
-- Sorted sets in memory: a server that keeps the promises on which app/rate_limiter.py relies.
use all_debrid_proxy.Base.{
  ℕ, ◌+◌, ◌≡◌, refl, ap, ◌∙◌, Bool, true, not, ◌&&◌, List, [], ◌∷◌, arith, leb, if◌then◌else◌, Text,
  text_eq, text_eq_refl, filter, count_if,
}
use all_debrid_proxy.RateLimiter.{SortedSets}

abbrev pub Sets : Type 0
Sets = Text → List (Text × ℕ)

abbrev pub has : (Text → ℕ → Bool) → Text × ℕ → Bool
has p (m, x) = p m x

-- A command on the set of one key.
abbrev pub on_key : Text → (List (Text × ℕ) → List (Text × ℕ)) → Sets → Sets
on_key key f s = λ k. if text_eq k key then f (s k) else s k

pub on_key_self :
    (key : Text) (f : List (Text × ℕ) → List (Text × ℕ)) (s : Sets) → on_key key f s key ≡ f (s key)
on_key_self key f s = rw (text_eq_refl key) refl

pub count_if-split :
    (p q : Text → ℕ → Bool) (es : List (Text × ℕ))
    → count_if (has p) es
      ≡ count_if (has (λ m x. p m x && q m x)) es + count_if (has (λ m x. p m x && not (q m x))) es
count_if-split p q [] = omega arith
count_if-split p q ((m, x) ∷ es) = ground (arith, count_if-split p q es)

pub count_if-filter :
    (p q : Text → ℕ → Bool) (es : List (Text × ℕ))
    → count_if (has p) (filter (has q) es) ≡ count_if (has (λ m x. p m x && q m x)) es
count_if-filter p q [] = refl
count_if-filter p q ((m, x) ∷ es) = ground (arith, count_if-filter p q es)

abbrev pub memory : SortedSets
memory = record {
  State = Sets;
  count = λ key p s. count_if (has p) (s key);
  zremrangebyscore = λ key lo hi. on_key key (filter (has (λ m x. not (leb lo x && leb x hi))));
  zcard = λ key s. count_if (has (λ m x. true)) (s key);
  zcount = λ key lo hi s. count_if (has (λ m x. leb lo x && leb x hi)) (s key);
  zadd = λ key member score.
      on_key key (λ es. (member, score) ∷ filter (has (λ m x. not (text_eq m member))) es);
  expire = λ key seconds s. s;
  delete = λ key. on_key key (λ es. []);
  count-split = λ key p q s. count_if-split p q (s key);
  count-zremrangebyscore = λ key p lo hi s.
      ap (count_if (has p)) (on_key_self key (filter (has (λ m x. not (leb lo x && leb x hi)))) s)
      ∙ count_if-filter p (λ m x. not (leb lo x && leb x hi)) (s key);
  zcard-eq = λ key s. refl;
  zcount-eq = λ key lo hi s. refl;
  count-zadd = λ key p member score s.
      ap (count_if (has p)) (
        on_key_self key (λ es. (member, score) ∷ filter (has (λ m x. not (text_eq m member))) es) s)
      ∙ added p member score (s key);
  count-expire = λ key p seconds s. refl;
  count-delete = λ key p s. ap (count_if (has p)) (on_key_self key (λ es. []) s);
}
  where
    added :
        (p : Text → ℕ → Bool) (member : Text) (score : ℕ) (es : List (Text × ℕ))
        → count_if (has p) ((member, score) ∷ filter (has (λ m x. not (text_eq m member))) es)
          ≡ count_if (has (λ m x. p m x && not (text_eq m member))) es
            + (if p member score then 1 else 0)
    added p member score es = omega (arith, count_if-filter p (λ m x. not (text_eq m member)) es)
