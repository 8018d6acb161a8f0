-- ===== src/Common/Results.antt =====
-- A call that returns a value or raises, with `do` blocks.

pub data Result {ℓ} (E A : Type ℓ) : Type ℓ where
  raise : E → Result E A
  ok : A → Result E A

-- The rest of a block runs on the value of a call that returned.
module _ {ℓ} {E A B : Type ℓ} where
  infixl 5 ◌>>=◌
  abbrev pub ◌>>=◌ : Result E A → (A → Result E B) → Result E B
  raise exception >>= rest = raise exception
  ok value >>= rest = rest value

-- The built-in exceptions that the modelled code can meet.
pub data PyError : Type 0 where
  key_error value_error type_error overflow_error : PyError
