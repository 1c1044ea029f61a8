-- ===== src/Api/Uploads/Laws/Name.antt =====
-- The name under which `upload_file_task` of app/api.py stores a file.
use mathlib.Core.Bool.{true≢false}
use all_debrid_proxy.Base.{
  ℕ, ◌<◌, ◌≡◌, ◌≢◌, refl, sym, ap, ◌∙◌, Bool, true, false, not, ◌&&◌, ◌||◌, [], ◌∷◌, ◌++◌, map,
  arith, ◌==◌, if◌then◌else◌, Bool-cases, inl, inr, Text, codes, is_empty, starts_with, lstrip,
  rstrip, take, filter, all, All, All-append, All-take,
}
use all_debrid_proxy.Base.Unicode.{Unicode, is_word_ascii}
use all_debrid_proxy.Base.Splitting.{All-lstrip, All-rstrip}
use all_debrid_proxy.Base.Decimal.{decimal, AllDigits, decimal-AllDigits}
use all_debrid_proxy.Api.Uploads.Names.{
  stem_and_suffix, only_word, is_trimmed, safe_base, with_dot, safe_ext, safe_name,
}

-- Neither a separator of paths nor the null character.
abbrev pub IsPlain : ℕ → Type 0
IsPlain c = (c ≢ b'/') × (c ≢ 92) × (c ≢ 0)

-- The name is a path component that is not `.` or `..`.
abbrev pub IsFileName : Text → Type 0
IsFileName [] = ⊥
IsFileName (c ∷ s) = (c ≢ b'.') × All IsPlain (c ∷ s)

abbrev IsBaseChar : ℕ → Type 0
IsBaseChar c = (c ≢ b'.') × IsPlain c

module _ (U : Unicode) where
  not_word : (c d : ℕ) → U.is_word c ≡ true → d < 128 → is_word_ascii d ≡ false → c ≢ d
  not_word c d h small plain e =
      true≢false (sym h ∙ ap U.is_word e ∙ U.is_word-ascii d small ∙ plain)

  word-IsBaseChar : (c : ℕ) → U.is_word c ≡ true → IsBaseChar c
  word-IsBaseChar c h = (
    not_word c b'.' h (omega arith) refl,
    (
      not_word c b'/' h (omega arith) refl,
      not_word c 92 h (omega arith) refl,
      not_word c 0 h (omega arith) refl,
    ),
  )

  only_word-IsBaseChar : (c : ℕ) → IsBaseChar (only_word U c)
  only_word-IsBaseChar c = elim (Bool-cases (U.is_word c)) [
    | inl e ↦ rw e (word-IsBaseChar c e)
    | inr e ↦ rw e (dash c)
  ]
    where
      dash : (c : ℕ) → IsBaseChar (if c == b'-' then c else b'_')
      dash c = (ground arith, (ground arith, ground arith, ground arith))

  map-IsBaseChar : (s : Text) → All IsBaseChar (map (only_word U) s)
  map-IsBaseChar [] = tt
  map-IsBaseChar (c ∷ s) = (only_word-IsBaseChar c, map-IsBaseChar s)

  safe_base-IsBaseChar : (s : Text) → All IsBaseChar (safe_base U s)
  unfolding safe_base
  safe_base-IsBaseChar s =
      All-take IsBaseChar 200 (rstrip is_trimmed (lstrip is_trimmed (map (only_word U) s))) (
        All-rstrip IsBaseChar is_trimmed (lstrip is_trimmed (map (only_word U) s))
          (All-lstrip IsBaseChar is_trimmed (map (only_word U) s) (map-IsBaseChar s)))

  filter-IsPlain : (s : Text) → All IsPlain (filter (λ c. U.is_word c || (c == b'.')) s)
  filter-IsPlain [] = tt
  filter-IsPlain (c ∷ s) = elim (Bool-cases (U.is_word c)) [
    | inl e ↦ rw e ((word-IsBaseChar c e).1, filter-IsPlain s)
    | inr e ↦ elim (Bool-cases (c == b'.')) [
      | inl f ↦ rw (e, f) ((ground arith, ground arith, ground arith), filter-IsPlain s)
      | inr f ↦ rw (e, f) (filter-IsPlain s)
    ]
  ]

  with_dot-IsPlain : (s : Text) → All IsPlain s → All IsPlain (with_dot s)
  unfolding with_dot
  with_dot-IsPlain s h = by_test (not (is_empty s) && not (starts_with s (codes ".")))
    where
      by_test : (b : Bool) → All IsPlain (if b then b'.' ∷ s else s)
      by_test true = ((omega arith, omega arith, omega arith), h)
      by_test false = h

  safe_ext-IsPlain : (s : Text) → All IsPlain (safe_ext U s)
  unfolding safe_ext
  safe_ext-IsPlain s =
      with_dot-IsPlain (take 50 (filter (λ c. U.is_word c || (c == b'.')) s))
        (All-take IsPlain 50 (filter (λ c. U.is_word c || (c == b'.')) s) (filter-IsPlain s))

  digits-IsPlain : (s : Text) → AllDigits s → All IsPlain s
  digits-IsPlain [] h = tt
  digits-IsPlain (c ∷ s) (h, hs) = ((ground arith, ground arith, ground arith), digits-IsPlain s hs)

  base-IsPlain : (s : Text) → All IsBaseChar s → All IsPlain s
  base-IsPlain [] h = tt
  base-IsPlain (c ∷ s) (h, hs) = (h.1, base-IsPlain s hs)

  all-IsPlain :
      (s : Text)
      → all (λ c. not (c == b'/') && not (c == 92) && not (c == 0)) s ≡ true
      → All IsPlain s
  all-IsPlain [] h = tt
  all-IsPlain (c ∷ s) h = ((ground arith, ground arith, ground arith), all-IsPlain s (ground arith))

  joined-IsFileName :
      (base ext : Text) (now : ℕ)
      → All IsBaseChar base
      → All IsPlain ext
      → IsFileName
          (if is_empty base then codes "uploaded_file_" ++ decimal now ++ ext else base ++ ext)
  joined-IsFileName [] ext now hb he = (
    omega arith,
    All-append IsPlain (codes "uploaded_file_") (decimal now ++ ext)
        (all-IsPlain (codes "uploaded_file_") refl)
        (All-append IsPlain (decimal now) ext (digits-IsPlain (decimal now) (decimal-AllDigits now))
          he),
  )
  joined-IsFileName (c ∷ base) ext now (h, hb) he =
      (h.0, (h.1, All-append IsPlain base ext (base-IsPlain base hb) he))

  -- Whatever name the client sends, the upload is stored under a single path component: no slash, no
  -- backslash and no null character, and not empty, `.` or `..`.
  pub safe_name-IsFileName : (original : Text) (now : ℕ) → IsFileName (safe_name U original now)
  unfolding safe_name
  safe_name-IsFileName original now =
      let (stem, suffix) = stem_and_suffix original in
      joined-IsFileName (safe_base U stem) (safe_ext U suffix) now (safe_base-IsBaseChar stem)
        (safe_ext-IsPlain suffix)
