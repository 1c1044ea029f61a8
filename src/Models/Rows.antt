-- ===== src/Models/Rows.antt =====
-- Laws of the row updates.
use all_debrid_proxy.Base.{
  ◌+◌, ◌≤◌, ◌≡◌, refl, ap, ◌≢◌, Bool, true, false, some, List, [], ◌∷◌, arith, if◌then◌else◌,
  Bool-cases, inl, inr, Text, text_eq, text_eq_iff, find, count_if, All, map,
}
use all_debrid_proxy.Models.{update_first}

module _ {ℓ} {R : Type ℓ} where
  -- An update that keeps the key finds the changed row under its key.
  pub find-update_first_self :
      (p : R → Bool) (f : R → R) (rs : List R) (r : R)
      → ((x : R) → p x ≡ true → p (f x) ≡ true)
      → find p rs ≡ some r
      → find p (update_first p f rs) ≡ some (f r)
  unfolding update_first
  find-update_first_self p f [] r keep h = cc
  find-update_first_self p f (x ∷ rs) r keep h = elim (Bool-cases (p x)) [
    | inl e ↦ rw (e, keep x e) (ap some (ap f (some_inj (rw e at h))))
    | inr e ↦ rw (e, e) (find-update_first_self p f rs r keep (rw e at h))
  ]
    where
      some_inj : {a b : R} → some a ≡ some b → a ≡ b
      some_inj h = cc

  -- It leaves what other keys find alone.
  pub find-update_first_other :
      (p q : R → Bool) (f : R → R) (rs : List R)
      → ((x : R) → p x ≡ true → (q x ≡ false) × (q (f x) ≡ false))
      → find q (update_first p f rs) ≡ find q rs
  unfolding update_first
  find-update_first_other p q f [] apart = refl
  find-update_first_other p q f (x ∷ rs) apart = elim (Bool-cases (p x)) [
    | inl e ↦ let (a, b) = apart x e in rw (e, a, b) refl
    | inr e ↦ rw e (ap (λ o. if q x then some x else o) (find-update_first_other p q f rs apart))
  ]

  -- Two updates of one row are one.
  pub update_first-update_first :
      (p : R → Bool) (f g : R → R) (rs : List R)
      → ((x : R) → p x ≡ true → p (f x) ≡ true)
      → update_first p g (update_first p f rs) ≡ update_first p (λ x. g (f x)) rs
  unfolding update_first
  update_first-update_first p f g [] keep = refl
  update_first-update_first p f g (x ∷ rs) keep = elim (Bool-cases (p x)) [
    | inl e ↦ rw (e, keep x e) refl
    | inr e ↦ rw (e, e) (ap (λ l. x ∷ l) (update_first-update_first p f g rs keep))
  ]

  -- One update changes a count by one at most.
  pub count_if-update_first-le :
      (p q : R → Bool) (f : R → R) (rs : List R)
      → count_if q (update_first p f rs) ≤ count_if q rs + 1
  unfolding update_first
  count_if-update_first-le p q f [] = omega arith
  count_if-update_first-le p q f (x ∷ rs) = ground (arith, count_if-update_first-le p q f rs)

  -- An update whose result is not counted does not raise the count.
  pub count_if-update_first-le_self :
      (p q : R → Bool) (f : R → R) (rs : List R)
      → ((x : R) → q (f x) ≡ false)
      → count_if q (update_first p f rs) ≤ count_if q rs
  unfolding update_first
  count_if-update_first-le_self p q f [] out = omega arith
  count_if-update_first-le_self p q f (x ∷ rs) out =
      ground (arith, out x, count_if-update_first-le_self p q f rs out)

module _ {ℓ κ} {R : Type ℓ} (P : R → Type κ) (p : R → Bool) (f : R → R) where
  pub All-update_first :
      (rs : List R)
      → ((x : R) → p x ≡ true → P x → P (f x))
      → All P rs
      → All P (update_first p f rs)
  unfolding update_first
  All-update_first [] keep h = tt
  All-update_first (x ∷ rs) keep h = elim (Bool-cases (p x)) [
    | inl e ↦ rw e (keep x e h.0, h.1)
    | inr e ↦ rw e (h.0, All-update_first rs keep h.1)
  ]

-- An update that keeps an attribute keeps the list of its values.
pub map-update_first {ℓ κ} :
    {R : Type ℓ} {B : Type κ} (g : R → B) (p : R → Bool) (f : R → R) (rs : List R)
    → ((x : R) → p x ≡ true → g (f x) ≡ g x)
    → map g (update_first p f rs) ≡ map g rs
unfolding update_first
map-update_first g p f [] keep = refl
map-update_first g p f (x ∷ rs) keep = elim (Bool-cases (p x)) [
  | inl e ↦ rw e (ap (λ b. b ∷ map g rs) (keep x e))
  | inr e ↦ rw e (ap (λ l. g x ∷ l) (map-update_first g p f rs keep))
]

-- No id occurs twice.
abbrev pub UniqueIds : List Text → Type 0
UniqueIds [] = Unit
UniqueIds (i ∷ is) = All (λ j. text_eq j i ≡ false) is × UniqueIds is

-- Different texts fail the test.
pub text_eq-ne : (s t : Text) → s ≢ t → text_eq s t ≡ false
text_eq-ne s t h = elim (Bool-cases (text_eq s t)) [
  | inl e ↦ absurd (h ((text_eq_iff s t).0 e))
  | inr e ↦ e
]
