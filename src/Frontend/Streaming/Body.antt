-- ===== src/Frontend/Streaming/Body.antt =====
-- The bytes that `stream_video` of frontend/app.py sends.
use all_debrid_proxy.Base.{
  ℕ, zero, suc, ◌-◌, ◌≤◌, ◌≡◌, refl, sym, ap, ◌∙◌, min, true, false, List, [], ◌∷◌, ◌++◌, arith,
  ltb, Bool-cases, inl, inr, is_empty, take, drop, length, length-take, All,
}
use all_debrid_proxy.Frontend.Streaming.{generate, chunk_size, small_range, body}

-- All the bytes of the chunks.
abbrev pub joined : List (List ℕ) → List ℕ
joined [] = []
joined (c ∷ cs) = c ++ joined cs

take_nil : (n : ℕ) → take {A = ℕ} n [] ≡ []
take_nil zero = refl
take_nil (suc n) = refl

-- Taking the first bytes, and then of the rest what is missing.
take-drop :
    (n m : ℕ) (rest : List ℕ)
    → n ≤ m
    → take n rest ++ take (m - length (take n rest)) (drop n rest) ≡ take m rest
take-drop zero m rest h = let e : m - 0 ≡ m = omega arith in rw e refl
take-drop (suc n) m [] h = take_nil (m - 0) ∙ sym (take_nil m)
take-drop (suc n) zero (x ∷ rest) h = absurd (omega arith)
take-drop (suc n) (suc m) (x ∷ rest) h =
    let e : suc m - suc (length (take n rest)) ≡ m - length (take n rest) = omega arith in
    rw e (ap (λ l. x ∷ l) (take-drop n m rest (omega arith)))

-- A chunk that is read while bytes are left is not empty.
length-take_pos : (n x : ℕ) (rest : List ℕ) → 1 ≤ n → 1 ≤ length (take n (x ∷ rest))
length-take_pos zero x rest h = h
length-take_pos (suc n) x rest h = omega arith

not_empty : (s : List ℕ) → 1 ≤ length s → is_empty s ≡ false
not_empty [] h = absurd (omega arith)
not_empty (c ∷ s) h = refl

positive : (m : ℕ) → ltb 0 (suc m) ≡ true
positive m = ground arith

append_nil : (s : List ℕ) → s ++ [] ≡ s
append_nil [] = refl
append_nil (c ∷ s) = ap (λ l. c ∷ l) (append_nil s)

-- With fuel for the bytes that remain, the loop ends with all of them sent, in chunks that are neither
-- empty nor larger than the chunk size.
pub generate_lem :
    (size fuel remaining : ℕ) (rest : List ℕ)
    → 1 ≤ size
    → remaining ≤ fuel
    → (joined (generate size fuel remaining rest) ≡ take remaining rest)
      × All (λ c. (1 ≤ length c) × (length c ≤ size)) (generate size fuel remaining rest)
unfolding generate
generate_lem size zero remaining rest pos h = let e : remaining ≡ 0 = omega arith in (rw e refl, tt)
generate_lem size (suc fuel) zero rest pos h = (refl, tt)
generate_lem size (suc fuel) (suc m) [] pos h =
    rw (positive m, take_nil (min size (suc m))) (refl, tt)
generate_lem size (suc fuel) (suc m) (x ∷ rest) pos h =
    let n = min size (suc m) in
    let chunk = take n (x ∷ rest) in
    let some_read = length-take_pos n x rest (omega arith) in
    let (sent, sizes) =
      generate_lem size fuel (suc m - length chunk) (drop n (x ∷ rest)) pos
        (omega (arith, some_read)) in
    rw (positive m, not_empty chunk some_read)
      (
        ap (λ l. chunk ++ l) sent ∙ take-drop n (suc m) (x ∷ rest) (omega arith),
        ((some_read, omega (arith, length-take n (x ∷ rest))), sizes),
      )

-- The two ways to send a range, at once or in chunks, send the same bytes: those of the file from the
-- first byte of the range on, as many as the range is long.
pub body-joined :
    (content : List ℕ) (start n : ℕ) → joined (body content start n) ≡ take n (drop start content)
unfolding body
body-joined content start n = elim (Bool-cases (ltb n small_range)) [
  | inl e ↦ rw e (append_nil (take n (drop start content)))
  | inr e ↦ rw e ((generate_lem chunk_size n n (drop start content) (omega arith) (omega arith)).0)
]
