-- ===== src/Base/Decimal.antt =====
-- Numbers in decimal: `str(n)` of a number that is not negative, and `int(s)`. `int` also takes digits of
-- other scripts, which are left out: the characters of HTTP headers are below 256 and hold none, and the
-- provider sends its sizes as numbers or in these digits.
use all_debrid_proxy.Base.{
  ℕ, zero, suc, ◌+◌, ◌*◌, ◌-◌, ◌/◌, ◌%◌, ◌≤◌, ◌<◌, ◌≡◌, refl, Bool, true, false, not, ◌&&◌, Option,
  none, some, [], ◌∷◌, arith, ltb, ◌==◌, if◌then◌else◌, Bool-cases, inl, inr, All, ℤ, pos, negsuc,
  Text, has_char, strip, lstrip, rstrip, is_space, ◌≢◌, ap, ◌∙◌,
}
use all_debrid_proxy.Base.Unicode.{is_digit}

-- The decimal digits of a number, in front of a text; the fuel is above the number.
unfoldable pub decimal_onto : ℕ → ℕ → Text → Text
decimal_onto zero n t = t
decimal_onto (suc fuel) n t =
    let rest = decimal_onto fuel (n / 10) ((b'0' + n % 10) ∷ t) in
    if ltb n 10 then (b'0' + n % 10) ∷ t else rest

unfoldable pub decimal : ℕ → Text
unfolding decimal_onto
decimal n = decimal_onto (n + 1) n []

-- One character of `int(s)`: whether a digit has to follow, and the number so far. A single underscore
-- may stand between two digits.
abbrev pub digit_step : Bool → ℕ → ℕ → Option (Bool × ℕ)
digit_step wanted n c =
    if is_digit c
    then some (false, n * 10 + (c - b'0'))
    else if (c == b'_') && not wanted
    then some (true, n)
    else none

unfoldable pub digits_onto : Bool → ℕ → Text → Option ℕ
digits_onto true n [] = none
digits_onto false n [] = some n
digits_onto wanted n (c ∷ s) = elim (digit_step wanted n c) [
  | none ↦ none
  | some p ↦ digits_onto p.0 p.1 s
]

abbrev pub negated : ℕ → ℤ
negated zero = pos zero
negated (suc n) = negsuc n

abbrev pub map_int : (ℕ → ℤ) → Option ℕ → Option ℤ
map_int f none = none
map_int f (some n) = some (f n)

unfoldable pub int_of_stripped : Text → Option ℤ
unfolding digits_onto
int_of_stripped [] = none
int_of_stripped (c ∷ s) =
    if c == b'-'
    then map_int negated (digits_onto true 0 s)
    else if c == b'+'
    then map_int pos (digits_onto true 0 s)
    else map_int pos (digits_onto true 0 (c ∷ s))

-- `int(s)`, which is `none` where it raises ValueError.
unfoldable pub int_of : Text → Option ℤ
unfolding strip int_of_stripped
int_of s = int_of_stripped (strip s)

-- Every character is a decimal digit.
abbrev pub AllDigits : Text → Type 0
AllDigits = All (λ c. is_digit c ≡ true)

digit-is_digit : (n : ℕ) → is_digit (b'0' + n % 10) ≡ true
digit-is_digit n = ground arith

decimal_onto-AllDigits : (fuel n : ℕ) (t : Text) → AllDigits t → AllDigits (decimal_onto fuel n t)
unfolding decimal_onto
decimal_onto-AllDigits zero n t h = h
decimal_onto-AllDigits (suc fuel) n t h = elim (Bool-cases (ltb n 10)) [
  | inl e ↦ rw e (digit-is_digit n, h)
  | inr e ↦ rw e (decimal_onto-AllDigits fuel (n / 10) ((b'0' + n % 10) ∷ t) (digit-is_digit n, h))
]

pub decimal-AllDigits : (n : ℕ) → AllDigits (decimal n)
unfolding decimal
decimal-AllDigits n = decimal_onto-AllDigits (n + 1) n [] tt

digits_onto-digit :
    (wanted : Bool) (m c : ℕ) (t : Text)
    → is_digit c ≡ true
    → digits_onto wanted m (c ∷ t) ≡ digits_onto false (m * 10 + (c - b'0')) t
unfolding digits_onto
digits_onto-digit true m c t h = rw (h, digits_onto) refl
digits_onto-digit false m c t h = rw (h, digits_onto) refl

one_digit :
    (wanted : Bool) (m n : ℕ) (t : Text)
    → digits_onto wanted m ((b'0' + n % 10) ∷ t) ≡ digits_onto false (m * 10 + n % 10) t
one_digit wanted m n t =
    digits_onto-digit wanted m (b'0' + n % 10) t (digit-is_digit n)
    ∙ ap (λ k. digits_onto false k t) (omega arith)

digits_onto-decimal_onto :
    (wanted : Bool) (fuel n : ℕ) (t : Text)
    → n < fuel
    → digits_onto wanted 0 (decimal_onto fuel n t) ≡ digits_onto false n t
unfolding decimal_onto
digits_onto-decimal_onto wanted zero n t h = absurd (omega arith)
digits_onto-decimal_onto wanted (suc fuel) n t h = elim (Bool-cases (ltb n 10)) [
  | inl e ↦ rw e (one_digit wanted 0 n t ∙ ap (λ m. digits_onto false m t) (mod_small e))
  | inr e ↦ rw e (
      digits_onto-decimal_onto wanted fuel (n / 10) ((b'0' + n % 10) ∷ t) (omega (arith, large e))
      ∙ one_digit false (n / 10) n t
      ∙ ap (λ m. digits_onto false m t) (omega arith))
]
  where
    mod_small : ltb n 10 ≡ true → 0 * 10 + n % 10 ≡ n
    mod_small e = ground arith

    large : ltb n 10 ≡ false → 10 ≤ n
    large e = ground arith

decimal_onto-ne-nil : (fuel n c : ℕ) (t : Text) → decimal_onto fuel n (c ∷ t) ≢ []
unfolding decimal_onto
decimal_onto-ne-nil zero n c t = λ e. cc
decimal_onto-ne-nil (suc fuel) n c t = elim (Bool-cases (ltb n 10)) [
  | inl e ↦ rw e (λ e. cc)
  | inr e ↦ rw e (decimal_onto-ne-nil fuel (n / 10) (b'0' + n % 10) (c ∷ t))
]

decimal_onto-ne-nil_start : (fuel n : ℕ) (t : Text) → decimal_onto (suc fuel) n t ≢ []
unfolding decimal_onto
decimal_onto-ne-nil_start fuel n t = elim (Bool-cases (ltb n 10)) [
  | inl e ↦ rw e (λ e. cc)
  | inr e ↦ rw e (decimal_onto-ne-nil fuel (n / 10) (b'0' + n % 10) t)
]

pub decimal-ne-nil : (n : ℕ) → decimal n ≢ []
unfolding decimal
decimal-ne-nil n = let e : n + 1 ≡ suc n = omega arith in rw e (decimal_onto-ne-nil_start n n [])

digit-no_space : (c : ℕ) → is_digit c ≡ true → is_space c ≡ false
unfolding is_space
digit-no_space c h = ground arith

-- No character is white space.
abbrev pub NoSpace : Text → Type 0
NoSpace = All (λ c. is_space c ≡ false)

lstrip-NoSpace : (s : Text) → NoSpace s → lstrip is_space s ≡ s
unfolding lstrip
lstrip-NoSpace [] h = refl
lstrip-NoSpace (c ∷ s) h = rw h.0 refl

rstrip-NoSpace : (s : Text) → NoSpace s → rstrip is_space s ≡ s
unfolding rstrip
rstrip-NoSpace [] h = refl
rstrip-NoSpace (c ∷ s) h = rw (rstrip-NoSpace s h.1) (last s)
  where
    last :
        (r : Text) → elim r [ [] ↦ if is_space c then [] else c ∷ [] | d ∷ r ↦ c ∷ d ∷ r ] ≡ c ∷ r
    last [] = rw h.0 refl
    last (d ∷ r) = refl

pub strip-NoSpace : (s : Text) → NoSpace s → strip s ≡ s
unfolding strip
strip-NoSpace s h = rw (lstrip-NoSpace s h) (rstrip-NoSpace s h)

pub AllDigits-NoSpace : (s : Text) → AllDigits s → NoSpace s
AllDigits-NoSpace [] h = tt
AllDigits-NoSpace (c ∷ s) h = (digit-no_space c h.0, AllDigits-NoSpace s h.1)

pub has_char-AllDigits :
    (sep : ℕ) (s : Text) → is_digit sep ≡ false → AllDigits s → has_char sep s ≡ false
has_char-AllDigits sep [] other h = refl
has_char-AllDigits sep (c ∷ s) apart h =
    let differs : (c == sep) ≡ false = ground (arith, h.0) in
    rw (differs, has_char-AllDigits sep s apart h.1) refl

int_of_stripped-digits :
    (s : Text) (n : ℕ)
    → s ≢ []
    → AllDigits s
    → digits_onto true 0 s ≡ some n
    → int_of_stripped s ≡ some (pos n)
unfolding int_of_stripped
int_of_stripped-digits [] n ne h e = absurd (ne refl)
int_of_stripped-digits (c ∷ s) n ne h e =
    let no_minus : (c == b'-') ≡ false = ground (arith, h.0) in
    let no_plus : (c == b'+') ≡ false = ground (arith, h.0) in rw (no_minus, no_plus, e) refl

digits_onto-decimal : (n : ℕ) → digits_onto true 0 (decimal n) ≡ some n
unfolding decimal
digits_onto-decimal n =
    digits_onto-decimal_onto true (n + 1) n [] (omega arith) ∙ unfold digits_onto in refl

-- `int(str(n))` is `n`.
pub int_of-decimal : (n : ℕ) → int_of (decimal n) ≡ some (pos n)
unfolding int_of
int_of-decimal n =
    rw (strip-NoSpace (decimal n) (AllDigits-NoSpace (decimal n) (decimal-AllDigits n))) (
      int_of_stripped-digits (decimal n) n (decimal-ne-nil n) (decimal-AllDigits n)
        (digits_onto-decimal n))
