-- ===== src/Common/Text.antt =====
-- Texts walked character by character.
use Prim.Native.Nat.{ℕ, zero, suc, ◌+◌, min}
use Prim.Native.Char.{Char}
use Prim.Native.String.{String, [], ◌∷◌}
use mathlib.Core.Path.{◌≡◌}
use mathlib.Core.Bool.{Bool, true, false}
use mathlib.Core.Option.{Option, none, some}
use native.Mathlib.Omega.{arith}

-- `len(s)`
abbrev pub text_length : String → ℕ
text_length [] = 0
text_length (c ∷ s) = suc (text_length s)

-- `s[:n]`
abbrev pub text_take : ℕ → String → String
text_take zero s = []
text_take (suc n) [] = []
text_take (suc n) (c ∷ s) = c ∷ text_take n s

-- `s + t`
abbrev pub concat : String → String → String
concat [] t = t
concat (c ∷ s) t = c ∷ concat s t

-- `bool(s)`
abbrev pub truthy : String → Bool
truthy [] = false
truthy (c ∷ s) = true

-- `s or t`
abbrev pub or_else : String → String → String
or_else [] t = t
or_else (c ∷ s) t = c ∷ s

-- The character at an index, if there is one.
abbrev pub char_at? : String → ℕ → Option Char
char_at? [] i = none
char_at? (c ∷ s) zero = some c
char_at? (c ∷ s) (suc i) = char_at? s i

pub text_length-take : (n : ℕ) (s : String) → text_length (text_take n s) ≡ min n (text_length s)
text_length-take zero s = omega arith
text_length-take (suc n) [] = omega arith
text_length-take (suc n) (c ∷ s) = omega (arith, text_length-take n s)

pub text_length-concat : (s t : String) → text_length (concat s t) ≡ text_length s + text_length t
text_length-concat [] t = omega arith
text_length-concat (c ∷ s) t = omega (arith, text_length-concat s t)
