-- ===== src/Frontend/Submit/Labels.antt =====
-- The labels and the sources that `create_task` of frontend/app.py posts.
use all_debrid_proxy.Base.{
  ℕ, zero, suc, ◌+◌, ◌-◌, ◌/◌, ◌%◌, ◌≤◌, ◌≡◌, refl, Bool, true, false, Option, none, some, List, [],
  ◌∷◌, ◌++◌, arith, ltb, Bool-cases, inl, inr, Text, codes, text_eq, text_eq→eq, text_eq_refl, ◌||◌,
  elem_of, take, length, length-append, length-take, map,
}
use all_debrid_proxy.Base.Unicode.{Unicode}
use all_debrid_proxy.Base.Decimal.{decimal, decimal_onto}
use all_debrid_proxy.Constants.{max_sources_per_submission}
use all_debrid_proxy.Frontend.Submit.Sources.{unique_sources}
use all_debrid_proxy.Frontend.Submit.{max_label_length, suffix, label_for}

length-decimal_onto-le : (fuel n : ℕ) (t : Text) → length (decimal_onto fuel n t) ≤ fuel + length t
unfolding decimal_onto
length-decimal_onto-le zero n t = omega arith
length-decimal_onto-le (suc fuel) n t =
    ground (arith, length-decimal_onto-le fuel (n / 10) ((b'0' + n % 10) ∷ t))

length-decimal-le : (n : ℕ) → length (decimal n) ≤ n + 1
unfolding decimal
length-decimal-le n = omega (arith, length-decimal_onto-le (n + 1) n [])

length-suffix-le : (i n : ℕ) → length (suffix i n) ≤ i + n + 7
unfolding suffix
length-suffix-le i n = omega (
  arith,
  length-append (decimal (i + 1) ++ codes "/" ++ decimal n) (codes ")"),
  length-append (decimal (i + 1) ++ codes "/") (decimal n),
  length-append (decimal (i + 1)) (codes "/"),
  length-decimal-le (i + 1),
  length-decimal-le n,
)

-- The label is absent or no longer than the limit.
abbrev pub IsShort : Option Text → Type 0
IsShort none = Unit
IsShort (some s) = length s ≤ max_label_length

-- A label within the limit stays within it when it is numbered: the label is cut, the number stays whole. So
-- the API does not reject a source for the length of its label.
label_for-IsShort :
    (label : Text) (i n : ℕ)
    → length label ≤ max_label_length
    → i ≤ n
    → n ≤ max_sources_per_submission
    → IsShort (label_for label i n)
unfolding label_for
label_for-IsShort [] i n h lt few = tt
label_for-IsShort (c ∷ s) i n h lt few = elim (Bool-cases (ltb 1 n)) [
  | inr e ↦ rw e h
  | inl e ↦
      let cut = max_label_length - length (suffix i n) in
      rw e (
        omega (
          arith,
          length-append (take cut (c ∷ s)) (suffix i n),
          length-take cut (c ∷ s),
          length-suffix-le i n,
        ))
]

-- The texts have lower-case forms that are not among those seen, and no two the same.
abbrev pub IsDistinct : Unicode → List Text → List Text → Type 0
IsDistinct U seen [] = Unit
IsDistinct U seen (s ∷ ss) = (elem_of (U.lower s) seen ≡ false) × IsDistinct U (U.lower s ∷ seen) ss

-- The lower-case form of each source is among those seen or among those of the rest.
abbrev pub is_kept : Unicode → List Text → List Text → Text → Bool
is_kept U seen kept s = elem_of (U.lower s) seen || elem_of (U.lower s) (map U.lower kept)

unique_sources-IsDistinct :
    (U : Unicode) (seen sources : List Text) → IsDistinct U seen (unique_sources U seen sources)
unfolding unique_sources
unique_sources-IsDistinct U seen [] = tt
unique_sources-IsDistinct U seen (s ∷ ss) = elim (Bool-cases (elem_of (U.lower s) seen)) [
  | inl e ↦ rw e (unique_sources-IsDistinct U seen ss)
  | inr e ↦ rw e (e, unique_sources-IsDistinct U (U.lower s ∷ seen) ss)
]

any_seen :
    (U : Unicode) (seen : List Text) (s t : Text) (kept : List Text)
    → is_kept U (U.lower s ∷ seen) kept t ≡ true
    → is_kept U seen (s ∷ kept) t ≡ true
unfolding elem_of
any_seen U seen s t kept h = ground arith

unique_sources-is_kept :
    (U : Unicode) (seen sources : List Text) (t : Text)
    → elem_of t sources ≡ true
    → is_kept U seen (unique_sources U seen sources) t ≡ true
unfolding unique_sources elem_of
unique_sources-is_kept U seen [] t h = cc
unique_sources-is_kept U seen (s ∷ ss) t h = elim (Bool-cases (text_eq t s)) [
  | inl same ↦ elim (Bool-cases (elem_of (U.lower s) seen)) [
    | inl e ↦ rw (text_eq→eq t s same, e) refl
    | inr e ↦ rw (text_eq→eq t s same, e, text_eq_refl (U.lower s)) refl
  ]
  | inr other ↦
      let there : elem_of t ss ≡ true = rw other at h in
      elim (Bool-cases (elem_of (U.lower s) seen)) [
        | inl e ↦ rw e (unique_sources-is_kept U seen ss t there)
        | inr e ↦ rw e (
            any_seen U seen s t (unique_sources U (U.lower s ∷ seen) ss)
              (unique_sources-is_kept U (U.lower s ∷ seen) ss t there))
      ]
]

-- Of the submitted sources, no two are posted that differ only in case, and for each submitted source one with
-- the same lower-case form is posted.
unique_sources_lem :
    (U : Unicode) (sources : List Text) (t : Text)
    → elem_of t sources ≡ true
    → IsDistinct U [] (unique_sources U [] sources)
      × (elem_of (U.lower t) (map U.lower (unique_sources U [] sources)) ≡ true)
unfolding elem_of
unique_sources_lem U sources t h =
    (unique_sources-IsDistinct U [] sources, unique_sources-is_kept U [] sources t h)
