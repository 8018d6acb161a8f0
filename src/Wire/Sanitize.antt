-- ===== src/Wire/Sanitize.antt =====
-- wire/sanitize.py: the coercion of a text to capped printable ASCII.
pub mod Output
use terok_clearance.Common.{
  ℕ, zero, suc, ◌-◌, ◌≤◌, ◌&&◌, Bool, String, Char, code, map, leb, if◌then◌else◌, ◌==◌,
  text_length, text_take, concat, Dict, string_eq,
}

abbrev pub default_max_len : ℕ
default_max_len = 256

abbrev pub printable_lo : ℕ
printable_lo = 0x20

abbrev pub printable_hi : ℕ
printable_hi = 0x7e

abbrev pub truncation_marker : String
truncation_marker = "..."

-- `_PRINTABLE_LO <= ord(ch) <= _PRINTABLE_HI`
unfoldable pub is_printable : Char → Bool
is_printable ch = leb printable_lo (code ch) && leb (code ch) printable_hi

unfoldable pub clean_char : Char → Char
clean_char ch = if is_printable ch then ch else " "

-- the `"".join(…)` over the characters of `value`
unfoldable pub clean : String → String
clean String.[] = String.[]
clean (String.◌∷◌ ch rest) = String.◌∷◌ (clean_char ch) (clean rest)

unfoldable pub sanitize : ℕ → String → String
sanitize max_len value =
    if value == ""
    then ""
    else let cleaned = clean value in
      if leb (text_length cleaned) max_len
      then cleaned
      else if leb max_len (text_length truncation_marker)
      then text_take max_len truncation_marker
      else concat (text_take (max_len - text_length truncation_marker) cleaned) truncation_marker

unfoldable pub sanitize_mapping : ℕ → Dict String String → Dict String String
sanitize_mapping max_len mapping = map (λ e. (e.0, sanitize max_len e.1)) mapping
