-- ===== src/Hub/Ttl/Printed.antt =====
-- hub/server.py: the TTL of a pending verdict, as a number with a unit.
use Prim.Native.Nat.{◌/◌, ◌%◌, ◌<◌}
use terok_clearance.Common.{
  concat-digits, digit_lem, digit_value, digits_keep, ℕ, zero, suc, ◌+◌, ◌*◌, Char, code, String,
  Bool, true, false, some, nat_eq, string_eq, ◌==◌, ltb, contains, concat, strip, keep_or_drop, ap₂,
  lstrip, rstrip, is_space, is_digit, digit_char, digits_before, str_of_ℕ, lower, lower_char, ◌≡◌,
  refl, ap, ◌∙◌, inl, inr, Bool-cases, eq_of_beq, arith, ok,
}
use terok_clearance.Hub.Ttl.{
  no_expiry, Digits, take_digits, unit_of, in_unit, trailing_unit, fraction, duration,
  parse_verdict_ttl,
}

take-digit :
    (acc k d : ℕ) (s : String)
    → d < 10
    → take_digits acc k (String.◌∷◌ (digit_char d) s) ≡ take_digits (acc * 10 + d) (suc k) s
unfolding take_digits
take-digit acc k d s small = rw ((digit_lem d).0, digit_value d small) refl

abbrev IsRead : ℕ → String → String → Type 0
IsRead n text rest = (k : ℕ) × (take_digits 0 0 text ≡ take_digits n (suc k) rest)

one_more :
    (m d n : ℕ) (s text : String)
    → d < 10
    → m * 10 + d ≡ n
    → IsRead m text (String.◌∷◌ (digit_char d) s)
    → IsRead n text s
one_more m d n s text small value (k, same) =
    (suc k, same ∙ take-digit m (suc k) d s small ∙ ap (λ v. take_digits v (suc (suc k)) s) value)

-- The digits of a number are read back as that number.
pub take-digits_before : (fuel n : ℕ) (s : String) → n < fuel → IsRead n (digits_before fuel n s) s
unfolding digits_before
take-digits_before zero n s enough = absurd (omega arith)
take-digits_before (suc fuel) n s enough = elim (Bool-cases (ltb n 10)) [
  | inl small ↦
      rw small
        (0, take-digit 0 0 (n % 10) s (omega arith) ∙ ap (λ m. take_digits m 1 s) (ground arith))
  | inr large ↦ rw large (
      one_more (n / 10) (n % 10) n s
        (digits_before fuel (n / 10) (String.◌∷◌ (digit_char (n % 10)) s)) (omega arith)
        (omega arith)
        (take-digits_before fuel (n / 10) (String.◌∷◌ (digit_char (n % 10)) s) (ground arith)))
]

-- A digit and at least one more character.
abbrev begins : String → Bool
begins String.[] = false
begins (String.◌∷◌ c String.[]) = false
begins (String.◌∷◌ c (String.◌∷◌ d s)) = is_digit c

differs : (v x : String) → begins v ≡ true → begins x ≡ false → (x == v) ≡ false
differs v x h g = elim (Bool-cases (x == v)) [
  | inl same ↦ absurd (cc (ap begins (eq_of_beq x v same), h, g))
  | inr other ↦ other
]

begins-expires : (v : String) → begins v ≡ true → contains v no_expiry ≡ false
unfolding contains
begins-expires v h =
    rw
      (
        differs v "never" h refl,
        differs v "none" h refl,
        differs v "0" h refl,
        differs v "off" h refl,
        differs v "disabled" h refl,
      )
      refl

-- A unit, as a character that is no other part of the text.
record IsUnit (c : Char) : Type 0 where
  lowered : lower_char c ≡ c
  solid : is_space c ≡ false
  undotted : (code c == b'.') ≡ false
  undigit : is_digit c ≡ false

unit_lem : (c : Char) (unit : ℕ) → unit_of c ≡ ok unit → IsUnit c
unfolding lower_char is_space
unit_lem c unit h = record {
  lowered = ground arith;
  solid = ground arith;
  undotted = ground arith;
  undigit = ground arith;
}

-- A text that the parser reads as it is, and that is not one of the words.
record IsSettled (s : String) : Type 0 where
  digit : begins s ≡ true
  right : rstrip s ≡ s
  left : lstrip s ≡ s
  lowered : lower s ≡ s

digit_keeps : (d : ℕ) (s : String) → IsSettled s → IsSettled (String.◌∷◌ (digit_char d) s)
unfolding rstrip lstrip lower
digit_keeps d String.[] h = absurd (cc (h.digit))
digit_keeps d (String.◌∷◌ c s) h = record {
  digit = (digit_lem d).0;
  right = ap (keep_or_drop (digit_char d)) h.right;
  left = rw (digit_lem d).1 refl;
  lowered = ap₂ (λ a b. String.◌∷◌ a b) (digit_lem d).2 h.lowered;
}

digit_unit :
    (d : ℕ) (c : Char) → IsUnit c → IsSettled (String.◌∷◌ (digit_char d) (String.◌∷◌ c String.[]))
unfolding rstrip lstrip lower
digit_unit d c h = record {
  digit = (digit_lem d).0;
  right = rw h.solid refl;
  left = rw (digit_lem d).1 refl;
  lowered = ap₂ (λ a b. String.◌∷◌ a (String.◌∷◌ b String.[])) (digit_lem d).2 h.lowered;
}

digits-IsSettled :
    (fuel n : ℕ) (c : Char)
    → IsUnit c
    → IsSettled (digits_before (suc fuel) n (String.◌∷◌ c String.[]))
unfolding digits_before
digits-IsSettled fuel n c h = elim (Bool-cases (ltb n 10)) [
  | inl small ↦ rw small (digit_unit (n % 10) c h)
  | inr large ↦ rw large (
      digits_keep IsSettled digit_keeps fuel (n / 10)
        (String.◌∷◌ (digit_char (n % 10)) (String.◌∷◌ c String.[])) (digit_unit (n % 10) c h))
]

abbrev whole : ℕ → ℕ → String → Digits
whole n k s = record { value = n; count = k; rest = s }

unit_read :
    (n k unit : ℕ) (c : Char)
    → unit_of c ≡ ok unit
    → (let number = fraction (whole n (suc k) (String.◌∷◌ c String.[])) (String.◌∷◌ c String.[]) in
        in_unit number (trailing_unit (lstrip number.rest)))
      ≡ ok (some (record { mantissa = n * unit; decimals = 0 }))
unfolding fraction lstrip
unit_read n k unit c known = let h = unit_lem c unit known in rw (h.undotted, h.solid, known) refl

module _ (n unit : ℕ) (c : Char) (known : unit_of c ≡ ok unit) where
  abbrev printed : String
  printed = digits_before (suc n) n (String.◌∷◌ c String.[])

  duration_read :
      IsRead n printed (String.◌∷◌ c String.[])
      → duration printed ≡ ok (some (record { mantissa = n * unit; decimals = 0 }))
  unfolding duration take_digits
  duration_read (k, same) =
      rw (same, (unit_lem c unit known).undigit, positive k) (unit_read n k unit c known)
    where
      positive : (k : ℕ) → (suc k == 0) ≡ false
      positive k = ground arith

  -- The TTL that is a number, printed in decimal, and a unit is read back as that many of the unit's
  -- seconds, for each of the units s, m, h and d.
  pub parse_verdict_ttl-str_of_ℕ :
      parse_verdict_ttl (some (concat (str_of_ℕ n) (String.◌∷◌ c String.[])))
      ≡ ok (some (record { mantissa = n * unit; decimals = 0 }))
  unfolding parse_verdict_ttl str_of_ℕ strip
  parse_verdict_ttl-str_of_ℕ =
      let h = digits-IsSettled n n c (unit_lem c unit known) in
      rw
        (
          concat-digits (suc n) n String.[] (String.◌∷◌ c String.[]),
          h.right,
          h.left,
          h.lowered,
          begins-expires printed h.digit,
        )
        (duration_read (take-digits_before (suc n) n (String.◌∷◌ c String.[]) (omega arith)))
