-- ===== src/Base/Splitting.antt =====
-- Laws of `split`, `strip` and `starts_with`.
use Prim.Native.Nat.{ℕ, ◌≤◌}
use mathlib.Core.Path.{◌≡◌, refl, ap, ◌∙◌}
use mathlib.Core.Bool.{Bool, true, false}
use mathlib.Core.Logic.{◌≢◌, inl, inr}
use mathlib.Core.List.{List, [], ◌∷◌, ◌++◌}
use native.Mathlib.Omega.{arith}
use all_debrid_proxy.Base.Tests.{◌==◌, if◌then◌else◌, Bool-cases, eqb_refl}
use all_debrid_proxy.Base.Lists.{All, length}
use all_debrid_proxy.Base.Texts.{Text, has_char, split, starts_with, lstrip, rstrip}

split-ne-nil : (sep : ℕ) (s : Text) → split sep s ≢ []
unfolding split
split-ne-nil sep [] = λ e. cc
split-ne-nil sep (c ∷ s) = ground arith

-- A text without the separator is one part.
pub split-eq_of_absent : (sep : ℕ) (s : Text) → has_char sep s ≡ false → split sep s ≡ s ∷ []
unfolding split
split-eq_of_absent sep [] h = refl
split-eq_of_absent sep (c ∷ s) h = ground (arith, split-eq_of_absent sep s)

abbrev cons_first : ℕ → List Text → List Text
cons_first c [] = (c ∷ []) ∷ []
cons_first c (part ∷ parts) = (c ∷ part) ∷ parts

cons_first-append :
    (c : ℕ) (ps qs : List Text) → ps ≢ [] → cons_first c (ps ++ qs) ≡ cons_first c ps ++ qs
cons_first-append c [] qs h = absurd (h refl)
cons_first-append c (p ∷ ps) qs h = refl

split-cons :
    (sep c : ℕ) (s : Text)
    → split sep (c ∷ s) ≡ (if c == sep then [] ∷ split sep s else cons_first c (split sep s))
unfolding split
split-cons sep c s = ground arith

-- Splitting a text at one of its separators.
pub split-append : (sep : ℕ) (s t : Text) → split sep (s ++ (sep ∷ t)) ≡ split sep s ++ split sep t
split-append sep [] t = rw (split-cons, eqb_refl sep) (unfold split in refl)
split-append sep (c ∷ s) t = elim (Bool-cases (c == sep)) [
  | inl e ↦
      rw (split-cons sep c (s ++ (sep ∷ t)), split-cons sep c s, e)
        (ap (λ l. [] ∷ l) (split-append sep s t))
  | inr e ↦
      rw (split-cons sep c (s ++ (sep ∷ t)), split-cons sep c s, e)
        (ap (cons_first c) (split-append sep s t)
          ∙ cons_first-append c (split sep s) (split sep t) (split-ne-nil sep s))
]

-- `s.startswith(p)` finds what follows the prefix.
pub starts_with-append : (s p : Text) → starts_with s p ≡ true → (t : Text) × (s ≡ p ++ t)
unfolding starts_with
starts_with-append s [] h = (s, refl)
starts_with-append [] (d ∷ p) h = cc
starts_with-append (c ∷ s) (d ∷ p) h =
    let (t, e) = starts_with-append s p (ground arith) in (t, ground arith)

starts_with_self : (p t : Text) → starts_with (p ++ t) p ≡ true
unfolding starts_with
starts_with_self [] t = refl
starts_with_self (c ∷ p) t = ground (arith, starts_with_self p t)

-- What `strip` keeps: every character of the result stood in the text.
module _ {ℓ} (P : ℕ → Type ℓ) (p : ℕ → Bool) where
  pub All-lstrip : (s : Text) → All P s → All P (lstrip p s)
  unfolding lstrip
  All-lstrip [] h = tt
  All-lstrip (c ∷ s) h = elim (Bool-cases (p c)) [
    | inl e ↦ rw e (All-lstrip s h.1)
    | inr e ↦ rw e h
  ]

  rstrip-cons : (c : ℕ) (s r : Text) → rstrip p s ≡ r → P c → All P r → All P (rstrip p (c ∷ s))
  unfolding rstrip
  rstrip-cons c s [] e hc hr =
      rw (e, rstrip) (elim (Bool-cases (p c)) [ inl t ↦ rw t tt | inr t ↦ rw t (hc, tt) ])
  rstrip-cons c s (d ∷ r) e hc hr = rw (e, rstrip) (hc, hr)

  pub All-rstrip : (s : Text) → All P s → All P (rstrip p s)
  All-rstrip [] h = unfold rstrip in tt
  All-rstrip (c ∷ s) h = rstrip-cons c s (rstrip p s) refl h.0 (All-rstrip s h.1)

module _ (p : ℕ → Bool) where
  pub length-lstrip-le : (s : Text) → length (lstrip p s) ≤ length s
  unfolding lstrip
  length-lstrip-le [] = omega arith
  length-lstrip-le (c ∷ s) = ground (arith, length-lstrip-le s)

  pub length-rstrip-le : (s : Text) → length (rstrip p s) ≤ length s
  unfolding rstrip
  length-rstrip-le [] = omega arith
  length-rstrip-le (c ∷ s) = ground (arith, length-rstrip-le s)

  -- The first character of a text is not of the set.
  abbrev pub StartsOutside : Text → Type 0
  StartsOutside [] = Unit
  StartsOutside (c ∷ s) = p c ≡ false

  -- The last character of a text is not of the set.
  abbrev pub EndsOutside : Text → Type 0
  EndsOutside [] = Unit
  EndsOutside (c ∷ []) = p c ≡ false
  EndsOutside (c ∷ d ∷ s) = EndsOutside (d ∷ s)

  pub lstrip-StartsOutside : (s : Text) → StartsOutside (lstrip p s)
  unfolding lstrip
  lstrip-StartsOutside [] = tt
  lstrip-StartsOutside (c ∷ s) = elim (Bool-cases (p c)) [
    | inl e ↦ rw e (lstrip-StartsOutside s)
    | inr e ↦ rw e e
  ]

  rstrip_cons_ends :
      (c : ℕ) (s r : Text) → rstrip p s ≡ r → EndsOutside r → EndsOutside (rstrip p (c ∷ s))
  unfolding rstrip
  rstrip_cons_ends c s [] e h =
      rw (e, rstrip) (elim (Bool-cases (p c)) [ inl t ↦ rw t tt | inr t ↦ rw t t ])
  rstrip_cons_ends c s (d ∷ r) e h = rw (e, rstrip) h

  pub rstrip-EndsOutside : (s : Text) → EndsOutside (rstrip p s)
  rstrip-EndsOutside [] = unfold rstrip in tt
  rstrip-EndsOutside (c ∷ s) = rstrip_cons_ends c s (rstrip p s) refl (rstrip-EndsOutside s)

  rstrip_cons_starts :
      (c : ℕ) (s r : Text) → rstrip p s ≡ r → p c ≡ false → StartsOutside (rstrip p (c ∷ s))
  unfolding rstrip
  rstrip_cons_starts c s [] e h = rw (e, rstrip) (rw h h)
  rstrip_cons_starts c s (d ∷ r) e h = rw (e, rstrip) h

  pub rstrip-StartsOutside : (s : Text) → StartsOutside s → StartsOutside (rstrip p s)
  rstrip-StartsOutside [] h = unfold rstrip in tt
  rstrip-StartsOutside (c ∷ s) h = rstrip_cons_starts c s (rstrip p s) refl h
