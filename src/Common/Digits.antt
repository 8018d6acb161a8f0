-- ===== src/Common/Digits.antt =====
-- The decimal digits of a number, in front of a text.
use Prim.Native.Nat.{ℕ, zero, suc, ◌-◌, ◌/◌, ◌%◌, ◌<◌}
use Prim.Native.Char.{code}
use Prim.Native.String.{String}
use mathlib.Core.Bool.{true, false}
use mathlib.Core.Path.{◌≡◌, refl}
use mathlib.Core.Logic.{inl, inr}
use native.Mathlib.Omega.{arith}
use terok_clearance.Common.Tests.{ltb, Bool-cases}
use terok_clearance.Common.Text.{concat}
use terok_clearance.Common.Numerals.{digit_char, digits_before, is_digit, is_space}
use terok_clearance.Common.Letters.{lower_char}

pub concat-digits :
    (fuel n : ℕ) (s t : String)
    → concat (digits_before fuel n s) t ≡ digits_before fuel n (concat s t)
unfolding digits_before
concat-digits zero n s t = refl
concat-digits (suc fuel) n s t = elim (Bool-cases (ltb n 10)) [
  | inl small ↦ rw small refl
  | inr large ↦ rw large (concat-digits fuel (n / 10) (String.◌∷◌ (digit_char (n % 10)) s) t)
]

pub digit_lem :
    (d : ℕ)
    → (is_digit (digit_char d) ≡ true)
      × (is_space (digit_char d) ≡ false)
      × (lower_char (digit_char d) ≡ digit_char d)
unfolding is_space lower_char
digit_lem zero = (refl, refl, refl)
digit_lem (suc zero) = (refl, refl, refl)
digit_lem (suc (suc zero)) = (refl, refl, refl)
digit_lem (suc (suc (suc zero))) = (refl, refl, refl)
digit_lem (suc (suc (suc (suc zero)))) = (refl, refl, refl)
digit_lem (suc (suc (suc (suc (suc zero))))) = (refl, refl, refl)
digit_lem (suc (suc (suc (suc (suc (suc zero)))))) = (refl, refl, refl)
digit_lem (suc (suc (suc (suc (suc (suc (suc zero))))))) = (refl, refl, refl)
digit_lem (suc (suc (suc (suc (suc (suc (suc (suc zero)))))))) = (refl, refl, refl)
digit_lem (suc (suc (suc (suc (suc (suc (suc (suc (suc n))))))))) = (refl, refl, refl)

pub digit_value : (d : ℕ) → d < 10 → code (digit_char d) - b'0' ≡ d
digit_value zero h = refl
digit_value (suc zero) h = refl
digit_value (suc (suc zero)) h = refl
digit_value (suc (suc (suc zero))) h = refl
digit_value (suc (suc (suc (suc zero)))) h = refl
digit_value (suc (suc (suc (suc (suc zero))))) h = refl
digit_value (suc (suc (suc (suc (suc (suc zero)))))) h = refl
digit_value (suc (suc (suc (suc (suc (suc (suc zero))))))) h = refl
digit_value (suc (suc (suc (suc (suc (suc (suc (suc zero)))))))) h = refl
digit_value (suc (suc (suc (suc (suc (suc (suc (suc (suc zero))))))))) h = refl
digit_value (suc (suc (suc (suc (suc (suc (suc (suc (suc (suc n)))))))))) h = omega arith

-- A property that a digit in front keeps, the digits of a number in front keep.
pub digits_keep :
    (P : String → Type 0)
    → ((d : ℕ) (s : String) → P s → P (String.◌∷◌ (digit_char d) s))
    → (fuel n : ℕ) (s : String) → P s
    → P (digits_before fuel n s)
unfolding digits_before
digits_keep P keep zero n s holds = holds
digits_keep P keep (suc fuel) n s holds = elim (Bool-cases (ltb n 10)) [
  | inl small ↦ rw small (keep (n % 10) s holds)
  | inr large ↦ rw large (
      digits_keep P keep fuel (n / 10) (String.◌∷◌ (digit_char (n % 10)) s) (keep (n % 10) s holds))
]
