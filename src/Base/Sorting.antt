-- ===== src/Base/Sorting.antt =====
-- `ORDER BY` as insertion sort; rows that neither comes before the other keep the order of the table.
use Prim.Native.Nat.{suc}
use mathlib.Core.Path.{◌≡◌, refl, ap, ◌∙◌}
use mathlib.Core.Bool.{Bool, true, false}
use mathlib.Core.List.{List, [], ◌∷◌}
use mathlib.Core.Logic.{inl, inr}
use native.Mathlib.Omega.{arith}
use all_debrid_proxy.Base.Tests.{if◌then◌else◌, Bool-cases}
use all_debrid_proxy.Base.Lists.{All, length, count_if}

module _ {ℓ} {A : Type ℓ} (before : A → A → Bool) where
  unfoldable pub insert_by : A → List A → List A
  insert_by x [] = x ∷ []
  insert_by x (y ∷ ys) = if before x y then x ∷ y ∷ ys else y ∷ insert_by x ys

  unfoldable pub sort_by : List A → List A
  unfolding insert_by
  sort_by [] = []
  sort_by (x ∷ xs) = insert_by x (sort_by xs)

  abbrev pub IsSorted : List A → Type 0
  IsSorted [] = Unit
  IsSorted (x ∷ xs) = All (λ y. before x y ≡ true) xs × IsSorted xs

  count_if-insert_by :
      (p : A → Bool) (x : A) (ys : List A) → count_if p (insert_by x ys) ≡ count_if p (x ∷ ys)
  unfolding insert_by
  count_if-insert_by p x [] = refl
  count_if-insert_by p x (y ∷ ys) = ground (arith, count_if-insert_by p x ys)

  pub count_if-sort_by : (p : A → Bool) (xs : List A) → count_if p (sort_by xs) ≡ count_if p xs
  unfolding sort_by
  count_if-sort_by p [] = refl
  count_if-sort_by p (x ∷ xs) =
      omega (arith, count_if-insert_by p x (sort_by xs), count_if-sort_by p xs)

  length-insert_by : (x : A) (ys : List A) → length (insert_by x ys) ≡ suc (length ys)
  unfolding insert_by
  length-insert_by x [] = refl
  length-insert_by x (y ∷ ys) = ground (arith, length-insert_by x ys)

  pub length-sort_by : (xs : List A) → length (sort_by xs) ≡ length xs
  unfolding sort_by
  length-sort_by [] = refl
  length-sort_by (x ∷ xs) = length-insert_by x (sort_by xs) ∙ ap suc (length-sort_by xs)

  All-insert_by : (P : A → Type 0) (x : A) (ys : List A) → P x → All P ys → All P (insert_by x ys)
  unfolding insert_by
  All-insert_by P x [] h hs = (h, tt)
  All-insert_by P x (y ∷ ys) h (h1, hs) = elim (Bool-cases (before x y)) [
    | inl e ↦ rw e (h, (h1, hs))
    | inr e ↦ rw e (h1, All-insert_by P x ys h hs)
  ]

  All-sort_by : (P : A → Type 0) (xs : List A) → All P xs → All P (sort_by xs)
  unfolding sort_by
  All-sort_by P [] h = tt
  All-sort_by P (x ∷ xs) (h, hs) = All-insert_by P x (sort_by xs) h (All-sort_by P xs hs)

  module _ (total : (x y : A) → before x y ≡ false → before y x ≡ true)
      (trans : (x y z : A) → before x y ≡ true → before y z ≡ true → before x z ≡ true) where
    All-before :
        (x y : A) (ys : List A)
        → before x y ≡ true
        → All (λ z. before y z ≡ true) ys
        → All (λ z. before x z ≡ true) ys
    All-before x y [] h hs = tt
    All-before x y (z ∷ ys) h (h1, hs) = (trans x y z h h1, All-before x y ys h hs)

    insert_by-IsSorted : (x : A) (ys : List A) → IsSorted ys → IsSorted (insert_by x ys)
    unfolding insert_by
    insert_by-IsSorted x [] h = (tt, tt)
    insert_by-IsSorted x (y ∷ ys) (h1, hs) = elim (Bool-cases (before x y)) [
      | inl e ↦ rw e ((e, All-before x y ys e h1), (h1, hs))
      | inr e ↦
          rw e (
            All-insert_by (λ z. before y z ≡ true) x ys (total x y e) h1,
            insert_by-IsSorted x ys hs,
          )
    ]

    pub sort_by-IsSorted : (xs : List A) → IsSorted (sort_by xs)
    unfolding sort_by
    sort_by-IsSorted [] = tt
    sort_by-IsSorted (x ∷ xs) = insert_by-IsSorted x (sort_by xs) (sort_by-IsSorted xs)

module _ {ℓ} {A : Type ℓ} (before other : A → A → Bool) where
  -- The two orders agree on every two members.
  abbrev pub Agree : List A → Type 0
  Agree [] = Unit
  Agree (x ∷ xs) = All (λ y. before x y ≡ other x y) xs × Agree xs

  insert_by-eq :
      (x : A) (ys : List A)
      → All (λ y. before x y ≡ other x y) ys
      → insert_by before x ys ≡ insert_by other x ys
  unfolding insert_by
  insert_by-eq x [] h = refl
  insert_by-eq x (y ∷ ys) (h, hs) = elim (Bool-cases (other x y)) [
    | inl e ↦ rw (h ∙ e, e) refl
    | inr e ↦ rw (h ∙ e, e) (ap (λ zs. y ∷ zs) (insert_by-eq x ys hs))
  ]

  -- A list is sorted alike by two orders that agree on it.
  pub sort_by-eq : (xs : List A) → Agree xs → sort_by before xs ≡ sort_by other xs
  unfolding sort_by
  sort_by-eq [] h = refl
  sort_by-eq (x ∷ xs) (h, hs) =
      insert_by-eq x (sort_by before xs) (All-sort_by before (λ y. before x y ≡ other x y) xs h)
      ∙ ap (insert_by other x) (sort_by-eq xs hs)
