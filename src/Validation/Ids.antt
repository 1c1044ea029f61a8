-- ===== src/Validation/Ids.antt =====
-- `validate_task_id` and `validate_infohash` of app/validation.py with their regular expressions, and
-- `parse_infohash` of app/utils.py.
pub mod Laws
pub mod LineBreak
use all_debrid_proxy.Base.{
  ℕ, zero, suc, Bool, true, false, ◌&&◌, ◌||◌, Option, none, some, List, [], ◌∷◌, leb, ◌==◌,
  if◌then◌else◌, Text, codes, is_empty, length, take, Result, ok, err, ◌>>=◌, ◌>>◌, raise_if,
}
use all_debrid_proxy.Base.Unicode.{Unicode, fold_case, is_digit, is_lower_ascii}
use all_debrid_proxy.Validation.Invalid
use all_debrid_proxy.Validation.Invalid.{Invalid, Validated}

-- `[0-9a-f]` under `re.IGNORECASE`, which is also `[0-9a-fA-F]`
unfoldable pub is_hex : ℕ → Bool
unfolding fold_case
is_hex c = is_digit c || (leb b'a' (fold_case c) && leb (fold_case c) b'f')

-- `[A-Z2-7]` under `re.IGNORECASE`
unfoldable pub is_base32 : ℕ → Bool
unfolding fold_case
is_base32 c = is_lower_ascii (fold_case c) || (leb b'2' c && leb c b'7')

-- `class{n}` at the front of a text: what follows the match
unfoldable pub repeat : (ℕ → Bool) → ℕ → Text → Option Text
repeat p zero s = some s
repeat p (suc n) [] = none
repeat p (suc n) (c ∷ s) = if p c then repeat p n s else none

-- one literal character, which has no case
abbrev pub literal : ℕ → Text → Option Text
literal d [] = none
literal d (c ∷ s) = if c == d then some s else none

abbrev pub then_match : Option Text → (Text → Option Text) → Option Text
then_match none f = none
then_match (some s) f = f s

-- `$`: the end of the text, or its last line break
abbrev pub at_end : Text → Bool
at_end [] = true
at_end (c ∷ []) = c == 10
at_end (c ∷ d ∷ s) = false

abbrev pub matched_to_end : Option Text → Bool
matched_to_end none = false
matched_to_end (some rest) = at_end rest

-- The groups of `Patterns.UUID_PATTERN` before `$`: what follows them.
unfoldable pub uuid_groups : Text → Option Text
unfolding repeat is_hex
uuid_groups s =
    let dashed = λ (n : ℕ) (t : Text). then_match (literal b'-' t) (repeat is_hex n) in
    then_match
      (then_match (then_match (then_match (repeat is_hex 8 s) (dashed 4)) (dashed 4)) (dashed 4))
      (dashed 12)

unfoldable pub matches_uuid : Text → Bool
unfolding uuid_groups
matches_uuid s = matched_to_end (uuid_groups s)

unfoldable pub validate_task_id : Unicode → Text → Validated Text
unfolding matches_uuid
validate_task_id U task_id = do
  raise_if (is_empty task_id) Invalid.task_id_required
  elim (matches_uuid task_id) [
    | true ↦ ok (Unicode.lower U task_id)
    | false ↦ err Invalid.task_id_format
  ]

-- `^class{n}$`
abbrev pub fullmatch_repeat : (ℕ → Bool) → ℕ → Text → Bool
fullmatch_repeat p n s = matched_to_end (repeat p n s)

unfoldable pub validate_infohash : Unicode → Text → Validated Text
unfolding repeat is_hex is_base32
validate_infohash U infohash = do
  raise_if (is_empty infohash) Invalid.infohash_required
  if length infohash == 40
      then (if fullmatch_repeat is_hex 40 infohash
          then ok (Unicode.lower U infohash)
          else err Invalid.infohash_hex)
      else if length infohash == 32
      then (if fullmatch_repeat is_base32 32 infohash
          then ok (Unicode.lower U infohash)
          else err Invalid.infohash_base32)
      else err Invalid.infohash_length
