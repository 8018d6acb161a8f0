-- ===== src/Wire/Sanitize/Output.antt =====
-- wire/sanitize.py: what `sanitize` gives, whatever the text.
use Prim.Native.Nat.{min}
use mathlib.Core.Option
use terok_clearance.Common.{
  ℕ, zero, suc, ◌+◌, ◌-◌, ◌≤◌, ◌<◌, String, Char, code, leb, if◌then◌else◌, ◌==◌, text_length,
  text_take, concat, char_at?, Dict, ◌≡◌, refl, ap, arith, All, get, Bool, true, false, ◌&&◌, ◌↔◌,
  and_true, leb→le, leb→gt, leb-false, ◌⊎◌, ◌∙◌, [], ◌∷◌, Bool-cases, inl, inr, text_length-take,
  text_length-concat, eq_of_beq, string_eq,
}
use terok_clearance.Wire.Sanitize.{
  truncation_marker, is_printable, clean_char, clean, sanitize, sanitize_mapping,
}

abbrev pub IsPrintable : String → Type 0
IsPrintable String.[] = Unit
IsPrintable (String.◌∷◌ c s) = (0x20 ≤ code c) × (code c ≤ 0x7e) × IsPrintable s

-- Printable ASCII of at most `n` characters.
pub record IsWire (n : ℕ) (s : String) : Type 0 where
  pub printable : IsPrintable s
  pub short : text_length s ≤ n

is_printable_iff : (c : Char) → (is_printable c ≡ true) ↔ ((0x20 ≤ code c) × (code c ≤ 0x7e))
unfolding is_printable
is_printable_iff c = (
  λ h. let (lo, hi) = and_true _ _ h in (leb→le _ _ lo, leb→le _ _ hi),
  λ h. le_and (code c) h.0 h.1,
)
  where
    le_and : (n : ℕ) → 0x20 ≤ n → n ≤ 0x7e → (leb 0x20 n && leb n 0x7e) ≡ true
    le_and n lo hi = ground arith

clean_char_range : (c : Char) → (0x20 ≤ code (clean_char c)) × (code (clean_char c) ≤ 0x7e)
unfolding clean_char
clean_char_range c = elim (Bool-cases (is_printable c)) [
  | inl keep ↦ rw keep ((is_printable_iff c).0 keep)
  | inr swap ↦ rw swap (omega arith)
]

clean_char_id : (c : Char) → 0x20 ≤ code c → code c ≤ 0x7e → clean_char c ≡ c
unfolding clean_char
clean_char_id c lo hi = rw ((is_printable_iff c).1 (lo, hi))

clean-IsPrintable : (s : String) → IsPrintable (clean s)
unfolding clean
clean-IsPrintable String.[] = tt
clean-IsPrintable (String.◌∷◌ c s) =
    ((clean_char_range c).0, (clean_char_range c).1, clean-IsPrintable s)

clean_id : (s : String) → IsPrintable s → clean s ≡ s
unfolding clean
clean_id String.[] h = refl
clean_id (String.◌∷◌ c s) h = cc (clean_char_id c h.0 h.1, clean_id s h.2)

length-clean : (s : String) → text_length (clean s) ≡ text_length s
unfolding clean
length-clean String.[] = refl
length-clean (String.◌∷◌ c s) = ap suc (length-clean s)

take-IsPrintable : (n : ℕ) (s : String) → IsPrintable s → IsPrintable (text_take n s)
take-IsPrintable zero s h = tt
take-IsPrintable (suc n) String.[] h = tt
take-IsPrintable (suc n) (String.◌∷◌ c s) h = (h.0, h.1, take-IsPrintable n s h.2)

concat-IsPrintable : (s t : String) → IsPrintable s → IsPrintable t → IsPrintable (concat s t)
concat-IsPrintable String.[] t h k = k
concat-IsPrintable (String.◌∷◌ c s) t h k = (h.0, h.1, concat-IsPrintable s t h.2 k)

marker-IsPrintable : IsPrintable truncation_marker
marker-IsPrintable = omega arith

-- Every character of the result is printable ASCII.
pub sanitize-IsPrintable : (n : ℕ) (s : String) → IsPrintable (sanitize n s)
unfolding sanitize
sanitize-IsPrintable n s = elim (Bool-cases (s == "")) [
  | inl empty ↦ rw empty tt
  | inr full ↦ rw full (capped (leb (text_length (clean s)) n) (leb n 3))
]
  where
    capped :
        (fits tight : Bool)
        → IsPrintable (
            if fits
            then clean s
            else if tight
            then text_take n truncation_marker
            else concat (text_take (n - 3) (clean s)) truncation_marker)
    capped true tight = clean-IsPrintable s
    capped false true = take-IsPrintable n truncation_marker marker-IsPrintable
    capped false false =
        concat-IsPrintable _ truncation_marker (take-IsPrintable (n - 3) _ (clean-IsPrintable s))
          marker-IsPrintable

-- A sanitised text is as long as the text it was made from, or as the cap where that is less.
pub length-sanitize : (n : ℕ) (s : String) → text_length (sanitize n s) ≡ min n (text_length s)
unfolding sanitize
length-sanitize n s = elim (Bool-cases (s == "")) [
  | inl empty ↦ rw (eq_of_beq s "" empty) (omega arith)
  | inr full ↦ rw full (grind (arith, length-clean, text_length-take, text_length-concat))
]

-- Every sanitised text is printable ASCII and no longer than its cap, whatever the text and the
-- cap.
pub sanitize-IsWire : (n : ℕ) (s : String) → IsWire n (sanitize n s)
sanitize-IsWire n s = record {
  printable = sanitize-IsPrintable n s;
  short = omega (arith, length-sanitize n s);
}

-- A printable ASCII text within the cap passes unchanged.
pub sanitize_id : (n : ℕ) (s : String) → IsWire n s → sanitize n s ≡ s
unfolding sanitize
sanitize_id n s h = elim (Bool-cases (s == "")) [
  | inl empty ↦ rw (eq_of_beq s "" empty)
  | inr full ↦ rw full (ground (arith, h.short, clean_id s h.printable))
]

pub sanitize_idem : (n : ℕ) (s : String) → sanitize n (sanitize n s) ≡ sanitize n s
sanitize_idem n s = sanitize_id n (sanitize n s) (sanitize-IsWire n s)

char_at-clean : (s : String) (i : ℕ) → char_at? (clean s) i ≡ Option.map clean_char (char_at? s i)
unfolding clean
char_at-clean String.[] i = refl
char_at-clean (String.◌∷◌ c s) zero = refl
char_at-clean (String.◌∷◌ c s) (suc i) = char_at-clean s i

char_at-take : (n : ℕ) (s : String) (i : ℕ) → i < n → char_at? (text_take n s) i ≡ char_at? s i
char_at-take zero s i h = elim h [ ]
char_at-take (suc n) String.[] i h = refl
char_at-take (suc n) (String.◌∷◌ c s) zero h = refl
char_at-take (suc n) (String.◌∷◌ c s) (suc i) h = char_at-take n s i (omega arith)

char_at-concat : (s t : String) (i : ℕ) → i < text_length s → char_at? (concat s t) i ≡ char_at? s i
char_at-concat String.[] t i h = elim h [ ]
char_at-concat (String.◌∷◌ c s) t zero h = refl
char_at-concat (String.◌∷◌ c s) t (suc i) h = char_at-concat s t i (omega arith)

-- The character itself where its code is in the range of printable ASCII, and else a space.
abbrev pub kept_or_space : Char → Char
kept_or_space c = if leb 0x20 (code c) then (if leb (code c) 0x7e then c else " ") else " "

clean_char_lem : (c : Char) → clean_char c ≡ kept_or_space c
unfolding clean_char is_printable
clean_char_lem c = elim (Bool-cases (leb 0x20 (code c))) [
  | inl above ↦ rw above
  | inr below ↦ rw below
]

map-clean_char : (o : Option.Option Char) → Option.map clean_char o ≡ Option.map kept_or_space o
map-clean_char Option.none = refl
map-clean_char (Option.some c) = ap Option.some (clean_char_lem c)

-- In a text that fits its cap, and before the marker in one that does not, each position holds its
-- own character, or a space in place of one that is not printable ASCII.
pub char_at-sanitize :
    (n : ℕ) (s : String) (i : ℕ)
    → (i + 3 < n) ⊎ (text_length s ≤ n)
    → char_at? (sanitize n s) i ≡ Option.map clean_char (char_at? s i)
unfolding sanitize
char_at-sanitize n s i kept = elim (Bool-cases (s == "")) [
  | inl empty ↦ rw (eq_of_beq s "" empty)
  | inr full ↦
      rw (full, ← char_at-clean s i)
        (elim (Bool-cases (leb (text_length (clean s)) n)) [
          | inl fits ↦ rw fits
          | inr long ↦
              let wide : i + 3 < n = before_marker long kept in
              rw (long, leb-false n 3 (omega arith))
                (char_at-concat (text_take (n - 3) (clean s)) truncation_marker i (
                    omega
                      (arith, text_length-take (n - 3) (clean s), length-clean s, leb→gt _ _ long))
                  ∙ char_at-take (n - 3) (clean s) i (omega arith))
        ])
]
  where
    before_marker :
        leb (text_length (clean s)) n ≡ false → (i + 3 < n) ⊎ (text_length s ≤ n) → i + 3 < n
    before_marker long (inl wide) = wide
    before_marker long (inr fits) = absurd (omega (arith, length-clean s, leb→gt _ _ long))

-- A mapping keeps its keys, and each value is sanitised.
pub get-sanitize_mapping :
    (n : ℕ) (k : String) (m : Dict String String)
    → get k (sanitize_mapping n m) ≡ Option.map (sanitize n) (get k m)
unfolding get sanitize_mapping
get-sanitize_mapping n k [] = refl
get-sanitize_mapping n k ((j, v) ∷ m) = ground (arith, get-sanitize_mapping n k m)

pub sanitize_mapping-IsWire :
    (n : ℕ) (m : Dict String String) → All (λ e. IsWire n e.1) (sanitize_mapping n m)
unfolding sanitize_mapping
sanitize_mapping-IsWire n [] = tt
sanitize_mapping-IsWire n ((k, v) ∷ m) = (sanitize-IsWire n v, sanitize_mapping-IsWire n m)

-- What sanitising makes of any text, for any cap: printable ASCII, as long as the text or as the cap
-- where that is less. At a position that is kept, which is any where the text fits its cap and those
-- before the marker where it does not, stands the text's own character, or a space in place of one
-- that is not printable ASCII.
pub sanitize_lem :
    (n : ℕ) (s : String) (i : ℕ)
    → (i + 3 < n) ⊎ (text_length s ≤ n)
    → IsPrintable (sanitize n s)
      × (text_length (sanitize n s) ≡ min n (text_length s))
      × (char_at? (sanitize n s) i ≡ Option.map kept_or_space (char_at? s i))
sanitize_lem n s i kept = (
  sanitize-IsPrintable n s,
  length-sanitize n s,
  char_at-sanitize n s i kept ∙ map-clean_char (char_at? s i),
)
