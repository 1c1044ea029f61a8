-- ===== src/Base/Unicode.antt =====
-- The case mappings of the Unicode tables that Python's `str.lower` and `str.upper` consult, and
-- `\w`. The tables are no part of the program: what it relies on is their values on ASCII.
use all_debrid_proxy.Base.Tests.{leb, ◌==◌, if◌then◌else◌}
use all_debrid_proxy.Base.Lists.{All}
use all_debrid_proxy.Base.Texts.{Text}
use Prim.Native.Nat.{ℕ, ◌+◌, ◌-◌, ◌<◌}
use mathlib.Core.Path.{◌≡◌, refl}
use mathlib.Core.Bool.{Bool, ◌&&◌, ◌||◌}
use mathlib.Core.List.{map}

abbrev pub is_upper_ascii : ℕ → Bool
is_upper_ascii c = leb b'A' c && leb c b'Z'

abbrev pub is_lower_ascii : ℕ → Bool
is_lower_ascii c = leb b'a' c && leb c b'z'

abbrev pub is_digit : ℕ → Bool
is_digit c = leb b'0' c && leb c b'9'

abbrev pub to_lower : ℕ → ℕ
to_lower c = if is_upper_ascii c then c + 32 else c

abbrev pub to_upper : ℕ → ℕ
to_upper c = if is_lower_ascii c then c - 32 else c

abbrev pub is_word_ascii : ℕ → Bool
is_word_ascii c = is_upper_ascii c || is_lower_ascii c || is_digit c || c == b'_'

abbrev pub IsAscii : Text → Type 0
IsAscii = All (λ c. c < 128)

pub record Unicode : Type 0 where
  pub lower : Text → Text
  pub upper : Text → Text
  pub is_word : ℕ → Bool
  pub lower-ascii : (s : Text) → IsAscii s → lower s ≡ map to_lower s
  pub upper-ascii : (s : Text) → IsAscii s → upper s ≡ map to_upper s
  pub is_word-ascii : (c : ℕ) → c < 128 → is_word c ≡ is_word_ascii c

-- Tables that leave every character beyond ASCII alone.
abbrev pub ascii_only : Unicode
ascii_only = record {
  lower = map to_lower;
  upper = map to_upper;
  is_word = is_word_ascii;
  lower-ascii = λ s h. refl;
  upper-ascii = λ s h. refl;
  is_word-ascii = λ c h. refl;
}

-- `re.IGNORECASE` on an ASCII pattern: four characters beyond ASCII fold into `i`, `s` and `k`.
unfoldable pub fold_case : ℕ → ℕ
fold_case c =
    if c == 0x130 || c == 0x131
    then b'i'
    else if c == 0x17f
    then b's'
    else if c == 0x212a
    then b'k'
    else to_lower c
