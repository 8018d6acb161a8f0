-- ===== src/Hub/Ttl.antt =====
-- hub/server.py: the TTL of a pending verdict as the configuration gives it. A number of seconds is a
-- decimal fraction; the rounding of `float` is left out, and `\d` and `lower()` are those of ASCII.
pub mod Printed
use Prim.Native.Nat.{◌-◌, ◌^◌}
use terok_clearance.Common.{
  ℕ, zero, suc, ◌+◌, ◌*◌, Char, code, String, Bool, true, false, ◌&&◌, not, Option, none, some,
  List, [], ◌∷◌, nat_eq, string_eq, ◌==◌, contains, strip, lstrip, lower, is_digit, is_space,
  if◌then◌else◌, Result, ok, raise, PyError, value_error, key_error,
}

-- `mantissa / 10 ^ decimals`
pub record Seconds : Type 0 where
  pub mantissa : ℕ
  pub decimals : ℕ

-- `_DEFAULT_VERDICT_TTL`
abbrev pub default_verdict_ttl : Seconds
default_verdict_ttl = record { mantissa = 86400; decimals = 0 }

-- The values that mean that nothing expires.
abbrev pub no_expiry : List String
no_expiry = "never" ∷ "none" ∷ "0" ∷ "off" ∷ "disabled" ∷ []

-- Digits at the head of a text, after a value and a count: the value with them, their count, the rest.
pub record Digits : Type 0 where
  pub value : ℕ
  pub count : ℕ
  pub rest : String

unfoldable pub take_digits : ℕ → ℕ → String → Digits
take_digits acc n String.[] = record { value = acc; count = n; rest = "" }
take_digits acc n (String.◌∷◌ c s) =
    let more = take_digits (acc * 10 + (code c - b'0')) (suc n) s in
    if is_digit c then more else record { value = acc; count = n; rest = String.◌∷◌ c s }

-- `_TTL_UNITS`. `re.IGNORECASE` takes `ſ` for an s too, which has no entry.
abbrev pub unit_of : Char → Result PyError ℕ
unit_of c =
    if code c == b's'
    then ok 1
    else if code c == b'm'
    then ok 60
    else if code c == b'h'
    then ok 3600
    else if code c == b'd'
    then ok 86400
    else if code c == 0x17f
    then raise key_error
    else raise value_error

-- The unit at the end of the text: none is that of seconds.
abbrev pub trailing_unit : String → Result PyError ℕ
trailing_unit String.[] = ok 1
trailing_unit (String.◌∷◌ c String.[]) = unit_of c
trailing_unit (String.◌∷◌ c (String.◌∷◌ d s)) = raise value_error

abbrev pub in_unit : Digits → Result PyError ℕ → Result PyError (Option Seconds)
in_unit d (raise e) = raise e
in_unit d (ok unit) = ok (some (record { mantissa = d.value * unit; decimals = d.count }))

-- The number before the unit, from its whole part: with the digits after a point, if there are any.
unfoldable pub fraction : Digits → String → Digits
unfolding take_digits
fraction whole String.[] = record whole { count = 0 }
fraction whole (String.◌∷◌ c s) =
    let decimals = take_digits whole.value 0 s in
    if code c == b'.' && not (decimals.count == 0) then decimals else record whole { count = 0 }

-- `_TTL_RE.fullmatch` and the product of its groups.
unfoldable pub duration : String → Result PyError (Option Seconds)
unfolding take_digits fraction
duration text =
    let whole = take_digits 0 0 text in
    let number = fraction whole whole.rest in
    if whole.count == 0
    then raise value_error
    else in_unit number (trailing_unit (lstrip number.rest))

-- `parse_verdict_ttl`
unfoldable pub parse_verdict_ttl : Option String → Result PyError (Option Seconds)
unfolding duration
parse_verdict_ttl none = ok (some default_verdict_ttl)
parse_verdict_ttl (some value) =
    let v = lower (strip value) in if contains v no_expiry then ok none else duration v

abbrev pub or_default : Result PyError (Option Seconds) → Option Seconds
or_default (ok ttl) = ttl
or_default (raise e) = some default_verdict_ttl

-- `_read_verdict_ttl_from_config`, with the value that the configuration has under the key, or the
-- exception of reading it
unfoldable pub read_verdict_ttl : Result PyError (Option String) → Option Seconds
unfolding parse_verdict_ttl
read_verdict_ttl (raise e) = some default_verdict_ttl
read_verdict_ttl (ok raw) = or_default (parse_verdict_ttl raw)
