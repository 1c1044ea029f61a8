-- ===== src/Validation/Names.antt =====
-- `validate_file_name`, `validate_label`, `validate_positive_int` and `sanitize_for_log` of
-- app/validation.py.
pub mod Laws
use all_debrid_proxy.Base.{
  ℕ, ◌++◌, Bool, true, false, not, ◌&&◌, ◌||◌, Option, none, some, List, [], ◌∷◌, map, ltb, leb,
  ◌==◌, if◌then◌else◌, ℤ, pos, negsuc, leb_ℤ, Text, codes, is_empty, has_char, elem_of, strip,
  length, take, filter, any, Result, ok, err, ◌>>=◌, ◌>>◌, raise_if,
}
use all_debrid_proxy.Base.Unicode.{Unicode}
use all_debrid_proxy.Constants.{max_filename_length, max_label_length}
use all_debrid_proxy.Validation.Invalid
use all_debrid_proxy.Validation.Invalid.{Invalid, Validated}

-- `ord(c) < 32`
abbrev pub is_control : ℕ → Bool
is_control c = ltb c 32

-- The list `dangerous`.
abbrev pub dangerous : List Text
dangerous =
    codes "."
    ∷ codes ".."
    ∷ codes "CON"
    ∷ codes "PRN"
    ∷ codes "AUX"
    ∷ codes "NUL"
    ∷ codes "COM1"
    ∷ codes "COM2"
    ∷ codes "COM3"
    ∷ codes "COM4"
    ∷ codes "COM5"
    ∷ codes "COM6"
    ∷ codes "COM7"
    ∷ codes "COM8"
    ∷ codes "COM9"
    ∷ codes "LPT1"
    ∷ codes "LPT2"
    ∷ codes "LPT3"
    ∷ codes "LPT4"
    ∷ codes "LPT5"
    ∷ codes "LPT6"
    ∷ codes "LPT7"
    ∷ codes "LPT8"
    ∷ codes "LPT9"
    ∷ []

unfoldable pub validate_file_name : Unicode → Text → Validated Text
unfolding elem_of
validate_file_name U file_name = do
  raise_if (is_empty file_name) Invalid.name_required
  raise_if (ltb max_filename_length (length file_name)) Invalid.name_too_long
  raise_if (has_char b'/' file_name || has_char 92 file_name) Invalid.name_separator
  raise_if (has_char 0 file_name) Invalid.name_null
  raise_if (any is_control file_name) Invalid.name_control
  raise_if (elem_of (Unicode.upper U file_name) dangerous) Invalid.name_reserved
  ok file_name

-- `label.strip() if label.strip() else None`
abbrev pub text_or_none : Text → Option Text
text_or_none [] = none
text_or_none (c ∷ s) = some (c ∷ s)

unfoldable pub validate_label : Option Text → Validated (Option Text)
unfolding strip
validate_label none = ok none
validate_label (some label) = do
  raise_if (ltb max_label_length (length label)) Invalid.label_too_long
  ok (text_or_none (strip (filter (λ c. leb 32 c) label)))

-- The values are integers, which is what the callers pass; `isinstance` lets them through.
unfoldable pub validate_positive_int : ℤ → Option ℤ → Validated ℤ
validate_positive_int value max_value = do
  raise_if (not (leb_ℤ (pos 0) value)) Invalid.int_negative
  raise_if (elim max_value [ none ↦ false | some m ↦ not (leb_ℤ value m) ]) Invalid.int_too_large
  ok value

-- The default of `max_length` is 200.
unfoldable pub sanitize_for_log : Text → ℕ → Text
sanitize_for_log value max_length =
    let sanitized = map (λ (c : ℕ). if leb 32 c then c else 32) value in
    if ltb max_length (length sanitized)
    then take max_length sanitized ++ codes "..."
    else sanitized
