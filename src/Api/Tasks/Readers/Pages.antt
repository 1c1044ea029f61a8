-- ===== src/Api/Tasks/Readers/Pages.antt =====
-- The pages of `list_tasks` in app/api.py, one after the other.
use all_debrid_proxy.Base.{
  ℕ, zero, suc, ◌+◌, ◌*◌, ◌≤◌, ◌≡◌, refl, sym, ap, ◌∙◌, subst, Bool, true, false, ◌&&◌, ◌==◌, ◌≢◌,
  leb, filter, All, Bool-cases, inl, inr, Option, none, some, List, [], ◌∷◌, ◌++◌, arith, le→leb,
  pos, take, drop, length, count_if, ok, err,
}
use all_debrid_proxy.Base.Sorting.{
  sort_by, IsSorted, count_if-sort_by, length-sort_by, sort_by-IsSorted, Agree, sort_by-eq,
}
use all_debrid_proxy.Constants.{default_task_limit, status_eq}
use all_debrid_proxy.Models.{Db, Task}
use all_debrid_proxy.Validation.Names.{validate_positive_int}
use all_debrid_proxy.Api.Errors.{Response}
use all_debrid_proxy.Api.Tasks.Readers.{
  StatusFilter, TaskPage, checked_status, checked_number, has_status, owned_by, newest_by, matching,
  list_tasks,
}

take-nil {ℓ} : {A : Type ℓ} (n : ℕ) → take {A = A} n [] ≡ []
take-nil zero = refl
take-nil (suc n) = refl

take-add {ℓ} :
    {A : Type ℓ} (a n : ℕ) (xs : List A) → take (a + n) xs ≡ take a xs ++ take n (drop a xs)
take-add zero n xs = let e : 0 + n ≡ n = omega arith in ap (λ m. take m xs) e
take-add (suc a) n [] =
    let e : suc a + n ≡ suc (a + n) = omega arith in ap (λ m. take m []) e ∙ sym (take-nil n)
take-add (suc a) n (x ∷ xs) =
    let e : suc a + n ≡ suc (a + n) = omega arith in
    ap (λ m. take m (x ∷ xs)) e ∙ ap (λ l. x ∷ l) (take-add a n xs)

take-all {ℓ} : {A : Type ℓ} (n : ℕ) (xs : List A) → length xs ≤ n → take n xs ≡ xs
take-all zero [] h = refl
take-all zero (x ∷ xs) h = elim h [ ]
take-all (suc n) [] h = refl
take-all (suc n) (x ∷ xs) h = ap (λ l. x ∷ l) (take-all n xs (omega (arith, h)))

checked_limit :
    (n : ℕ) → n ≤ default_task_limit → checked_number (pos n) (some (pos default_task_limit)) ≡ ok n
unfolding validate_positive_int
checked_limit n h =
    rw
      (
        checked_number,
        validate_positive_int,
        le→leb 0 n (omega arith),
        le→leb n default_task_limit h,
      )
      refl

checked_offset : (n : ℕ) → checked_number (pos n) none ≡ ok n
unfolding validate_positive_int
checked_offset n = rw (checked_number, validate_positive_int, le→leb 0 n (omega arith)) refl

abbrev pub tasks_of : Response TaskPage → List Task
tasks_of (ok p) = p.tasks
tasks_of (err e) = []

-- The answer lists the newest first.
abbrev pub newest_first : Task → Task → Bool
newest_first t u = leb u.created_at t.created_at

-- What a request asks for: the status, if it names one, and the owner, if it names one.
abbrev pub has_owner : ℕ → Option ℕ → Bool
has_owner zero owner = true
has_owner (suc user) none = false
has_owner (suc user) (some owner) = owner == suc user

abbrev pub is_asked : StatusFilter → ℕ → Task → Bool
is_asked (StatusFilter.only s) user t = status_eq t.status s && has_owner user t.user_id
is_asked StatusFilter.all_statuses user t = has_owner user t.user_id
is_asked StatusFilter.unknown_status user t = has_owner user t.user_id

-- No two tasks were created at one time.
abbrev pub HasOwnTimes : List Task → Type 0
HasOwnTimes [] = Unit
HasOwnTimes (t ∷ ts) = All (λ (u : Task). t.created_at ≢ u.created_at) ts × HasOwnTimes ts

filter-eq :
    (p q : Task → Bool) → ((t : Task) → p t ≡ q t) → (ts : List Task) → filter p ts ≡ filter q ts
filter-eq p q h [] = refl
filter-eq p q h (t ∷ ts) = elim (Bool-cases (q t)) [
  | inl e ↦ rw (h t ∙ e, e) (ap (λ us. t ∷ us) (filter-eq p q h ts))
  | inr e ↦ rw (h t ∙ e, e) (filter-eq p q h ts)
]

matching-eq :
    (status : StatusFilter) (user : ℕ) (ts : List Task)
    → matching status user ts ≡ filter (is_asked status user) ts
unfolding matching
matching-eq status user ts =
    filter-eq (λ t. has_status status t && owned_by user t) (is_asked status user) (one status user)
      ts
  where
    owner : (user : ℕ) (t : Task) → owned_by user t ≡ has_owner user t.user_id
    owner zero t = refl
    owner (suc user) t = let e : (suc user == 0) ≡ false = ground arith in rw e refl

    one :
        (status : StatusFilter) (user : ℕ) (t : Task)
        → (has_status status t && owned_by user t) ≡ is_asked status user t
    one (StatusFilter.only s) user t = ap (λ b. status_eq t.status s && b) (owner user t)
    one StatusFilter.all_statuses user t = owner user t
    one StatusFilter.unknown_status user t = owner user t

-- Where times differ, the order of rows of one time does not matter.
agree : (rank : Task → ℕ) (ts : List Task) → HasOwnTimes ts → Agree (newest_by rank) newest_first ts
agree rank [] h = tt
agree rank (t ∷ ts) (h, hs) = (each ts h, agree rank ts hs)
  where
    each :
        (us : List Task)
        → All (λ (u : Task). t.created_at ≢ u.created_at) us
        → All (λ u. newest_by rank t u ≡ newest_first t u) us
    each [] h = tt
    each (u ∷ us) (h, hs) = (ground (arith, h), each us hs)

module _ (rank : ℕ → Task → ℕ) (status : StatusFilter) (user : ℕ) (db : Db) where
  abbrev asked : List Task
  asked = filter (is_asked status user) db.tasks

  -- The first pages of `n` tasks each, as a client gets them that raises the offset by `n`. The database may order
  -- the rows of one time anew in each query.
  abbrev pub pages : ℕ → ℕ → List Task
  pages n zero = []
  pages n (suc k) =
      pages n k ++ tasks_of (list_tasks (rank k) status (pos n) (pos (k * n)) (pos user) db)

  list_tasks-eq :
      (k n from : ℕ)
      → checked_status status ≡ ok status
      → n ≤ default_task_limit
      → HasOwnTimes asked
      → list_tasks (rank k) status (pos n) (pos from) (pos user) db
        ≡ ok (record {
          tasks = take n (drop from (sort_by newest_first asked));
          total = length asked;
        })
  unfolding list_tasks
  list_tasks-eq k n from known le apart =
      rw
        (
          checked_limit n le,
          checked_offset from,
          known,
          checked_offset user,
          matching-eq status user db.tasks,
          sort_by-eq (newest_by (rank k)) newest_first asked (agree (rank k) asked apart),
        )
        refl

  pages-eq :
      (n k : ℕ)
      → checked_status status ≡ ok status
      → n ≤ default_task_limit
      → HasOwnTimes asked
      → pages n k ≡ take (k * n) (sort_by newest_first asked)
  pages-eq n zero known le apart =
      let e : 0 ≡ 0 * n = omega arith in ap (λ m. take m (sort_by newest_first asked)) e
  pages-eq n (suc k) known le apart =
      let rows = sort_by newest_first asked in
      let e : k * n + n ≡ suc k * n = omega arith in
      ap (λ l. l ++ tasks_of (list_tasks (rank k) status (pos n) (pos (k * n)) (pos user) db))
        (pages-eq n k known le apart)
      ∙ ap (λ r. take (k * n) rows ++ tasks_of r) (list_tasks-eq k n (k * n) known le apart)
      ∙ sym (take-add (k * n) n rows)
      ∙ ap (λ m. take m rows) e

  -- If no two of the tasks with the status and the owner that the request names were created at one time, whoever
  -- asks for enough pages of up to 100 tasks gets each of them exactly as often as the table holds it, no other
  -- task, and the newest first, however the database orders rows of one time; `total` tells how many there are.
  pub list_tasks-pages :
      (n k : ℕ) (p : Task → Bool) (page : TaskPage)
      → checked_status status ≡ ok status
      → n ≤ default_task_limit
      → HasOwnTimes (filter (is_asked status user) db.tasks)
      → list_tasks (rank 0) status (pos n) (pos 0) (pos user) db ≡ ok page
      → page.total ≤ k * n
      → (count_if p (pages n k) ≡ count_if p (filter (is_asked status user) db.tasks))
        × IsSorted newest_first (pages n k)
        × (length (pages n k) ≡ page.total)
        × (page.total ≡ length (filter (is_asked status user) db.tasks))
  list_tasks-pages n k p page known le apart h enough =
      let same =
        ok_inj (list_tasks (rank 0) status (pos n) (pos 0) (pos user) db)
          (list_tasks-eq 0 n 0 known le apart) h in
      let counted : length asked ≡ page.total = ap (λ (g : TaskPage). g.total) same in
      let sized = length-sort_by newest_first asked in
      let e : pages n k ≡ sort_by newest_first asked =
        pages-eq n k known le apart
        ∙ take-all (k * n) (sort_by newest_first asked) (omega (arith, sized, counted, enough)) in
      (
        ap (count_if p) e ∙ count_if-sort_by newest_first p asked,
        subst (IsSorted newest_first) (sym e)
            (sort_by-IsSorted newest_first newest_first-total newest_first-trans asked),
        ap length e ∙ sized ∙ counted,
        sym counted,
      )
    where
      ok_inj : (r : Response TaskPage) {a b : TaskPage} → r ≡ ok a → r ≡ ok b → a ≡ b
      ok_inj r h g = cc

      newest_first-total : (t u : Task) → newest_first t u ≡ false → newest_first u t ≡ true
      newest_first-total t u h = ground arith

      newest_first-trans :
          (t u v : Task)
          → newest_first t u ≡ true
          → newest_first u v ≡ true
          → newest_first t v ≡ true
      newest_first-trans t u v h g = ground arith
