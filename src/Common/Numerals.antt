-- ===== src/Common/Numerals.antt =====
-- `str(n)` and `int(s)` of Python, and the `strip` that `int` makes first. Only ASCII digits are
-- read; `int` refuses a text of more than 4300 digits.
use Prim.Native.Nat.{ℕ, zero, suc, ◌+◌, ◌-◌, ◌*◌, ◌/◌, ◌%◌}
use Prim.Native.Char.{Char, code}
use Prim.Native.String.{String, [], ◌∷◌}
use mathlib.Core.Bool.{Bool, true, false, ◌&&◌, ◌||◌}
use mathlib.Core.Option
use mathlib.Core.Option.{Option, none, some}
use terok_clearance.Common.Int.{ℤ, pos, negsuc}
use terok_clearance.Common.Tests.{◌==◌, nat_eq, if◌then◌else◌, ltb, leb}
use terok_clearance.Common.Text.{concat}

-- `ch.isspace()`
unfoldable pub is_space : Char → Bool
is_space ch =
    let c = code ch in
    (leb 9 c && leb c 13)
    || (leb 28 c && leb c 32)
    || c == 0x85
    || c == 0xa0
    || c == 0x1680
    || (leb 0x2000 c && leb c 0x200a)
    || c == 0x2028
    || c == 0x2029
    || c == 0x202f
    || c == 0x205f
    || c == 0x3000

unfoldable pub lstrip : String → String
unfolding is_space
lstrip [] = []
lstrip (c ∷ s) = let rest = lstrip s in if is_space c then rest else c ∷ s

abbrev pub keep_or_drop : Char → String → String
keep_or_drop c [] = if is_space c then [] else c ∷ []
keep_or_drop c (d ∷ t) = c ∷ d ∷ t

unfoldable pub rstrip : String → String
unfolding is_space
rstrip [] = []
rstrip (c ∷ s) = keep_or_drop c (rstrip s)

-- `s.strip()`
unfoldable pub strip : String → String
unfolding lstrip rstrip
strip s = lstrip (rstrip s)

abbrev pub digit_char : ℕ → Char
digit_char zero = "0"
digit_char (suc zero) = "1"
digit_char (suc (suc zero)) = "2"
digit_char (suc (suc (suc zero))) = "3"
digit_char (suc (suc (suc (suc zero)))) = "4"
digit_char (suc (suc (suc (suc (suc zero))))) = "5"
digit_char (suc (suc (suc (suc (suc (suc zero)))))) = "6"
digit_char (suc (suc (suc (suc (suc (suc (suc zero))))))) = "7"
digit_char (suc (suc (suc (suc (suc (suc (suc (suc zero)))))))) = "8"
digit_char _ = "9"

-- The digits of `n` before those of `acc`; a number below the fuel never runs out of it.
unfoldable pub digits_before : ℕ → ℕ → String → String
digits_before zero n acc = acc
digits_before (suc fuel) n acc =
    let acc' = digit_char (n % 10) ∷ acc in
    let more = digits_before fuel (n / 10) acc' in if ltb n 10 then acc' else more

unfoldable pub str_of_ℕ : ℕ → String
unfolding digits_before
str_of_ℕ n = digits_before (suc n) n []

unfoldable pub str_of_ℤ : ℤ → String
unfolding str_of_ℕ
str_of_ℤ (pos n) = str_of_ℕ n
str_of_ℤ (negsuc n) = concat "-" (str_of_ℕ (suc n))

abbrev pub is_digit : Char → Bool
is_digit c = leb b'0' (code c) && leb (code c) b'9'

-- One character of a numeral: the value so far, and whether a digit came last. An underscore may
-- only stand between two digits.
abbrev pub numeral_step : ℕ → Bool → Char → Option (ℕ × Bool)
numeral_step acc after_digit c =
    if is_digit c
    then some (acc * 10 + (code c - b'0'), true)
    else if code c == b'_' && after_digit
    then some (acc, false)
    else none

unfoldable pub numeral_from : ℕ → Bool → String → Option ℕ
numeral_from acc after_digit [] = if after_digit then some acc else none
numeral_from acc after_digit (c ∷ s) = elim (numeral_step acc after_digit c) [
  | none ↦ none
  | some (acc', after') ↦ numeral_from acc' after' s
]

unfoldable pub digit_count : String → ℕ
digit_count [] = 0
digit_count (c ∷ s) = (if is_digit c then 1 else 0) + digit_count s

abbrev pub max_str_digits : ℕ
max_str_digits = 4300

unfoldable pub numeral : String → Option ℕ
unfolding numeral_from digit_count
numeral s = if ltb max_str_digits (digit_count s) then none else numeral_from 0 false s

abbrev pub negate : ℕ → ℤ
negate zero = pos 0
negate (suc n) = negsuc n

abbrev pub signed : String → Option ℤ
signed [] = none
signed (c ∷ s) =
    if code c == b'-'
    then Option.map negate (numeral s)
    else if code c == b'+'
    then Option.map pos (numeral s)
    else Option.map pos (numeral (c ∷ s))

-- `int(s)`; `none` where it raises `ValueError`
unfoldable pub int_of_text : String → Option ℤ
unfolding strip numeral
int_of_text s = signed (strip s)
