-- ===== src/Common/Utf8.antt =====
-- `bytes.decode(errors="replace")`: UTF-8, where each ill-formed stretch becomes one U+FFFD.
use Prim.Native.Nat.{ℕ, zero, suc, ◌+◌, ◌*◌, ◌-◌, ◌≤◌, compare, Ordering}
use Prim.Native.Char.{Char, char, IsScalar}
use Prim.Native.String.{String}
use mathlib.Core.Path.{◌≡◌, refl}
use mathlib.Core.Bool.{Bool, true, false, ◌&&◌}
use mathlib.Core.Option.{Option, none, some}
use mathlib.Core.List.{List, [], ◌∷◌}
use native.Mathlib.Omega.{arith}
use terok_clearance.Common.Tests.{ltb, leb, nat_beq, if◌then◌else◌}
use terok_clearance.Common.Lists.{length}
use terok_clearance.Common.Text.{text_length, concat, text_length-concat}

abbrev pub replacement : Char
replacement = char 0xfffd tt

scalar : (n : ℕ) → Option (IsScalar n)
scalar n = go (compare n 55296) (compare 57343 n) (compare n 1114112) refl refl refl
  where
    go :
        (a b c : Ordering)
        → compare n 55296 ≡ a
        → compare 57343 n ≡ b
        → compare n 1114112 ≡ c
        → Option (IsScalar n)
    go Ordering.lt b c e f g = some (rw e tt)
    go Ordering.eq Ordering.lt Ordering.lt e f g = some (rw (e, f, g) tt)
    go Ordering.gt Ordering.lt Ordering.lt e f g = some (rw (e, f, g) tt)
    go _ _ _ e f g = none

-- The character of a number that is a scalar value.
unfoldable pub chr : ℕ → Char
unfolding scalar
chr n = elim (scalar n) [ none ↦ replacement | some p ↦ char n p ]

-- Between two characters, or inside one: how many bytes follow the next, the bits so far, and the bounds
-- of the next byte.
pub data State : Type 0 where
  ready : State
  inside : ℕ → ℕ → ℕ → ℕ → State

abbrev pub between : ℕ → ℕ → ℕ → Bool
between lo n hi = leb lo n && leb n hi

-- The state after a byte that begins a character of several.
unfoldable pub lead : ℕ → Option State
lead b =
    if between 0xc2 b 0xdf
    then some (inside 0 (b - 0xc0) 0x80 0xbf)
    else if nat_beq b 0xe0
    then some (inside 1 0 0xa0 0xbf)
    else if nat_beq b 0xed
    then some (inside 1 0xd 0x80 0x9f)
    else if between 0xe1 b 0xef
    then some (inside 1 (b - 0xe0) 0x80 0xbf)
    else if nat_beq b 0xf0
    then some (inside 2 0 0x90 0xbf)
    else if between 0xf1 b 0xf3
    then some (inside 2 (b - 0xf0) 0x80 0xbf)
    else if nat_beq b 0xf4
    then some (inside 2 4 0x80 0x8f)
    else none

abbrev pub begin_with : Option State → String × State
begin_with none = (String.◌∷◌ replacement String.[], ready)
begin_with (some state) = (String.[], state)

-- What a byte does between two characters: the text that it adds, and the state after it.
unfoldable pub first_byte : ℕ → String × State
unfolding chr lead
first_byte b = if ltb b 0x80 then (String.◌∷◌ (chr b) String.[], ready) else begin_with (lead b)

abbrev pub more : ℕ → ℕ → String × State
more zero bits = (String.◌∷◌ (chr bits) String.[], ready)
more (suc k) bits = (String.[], inside k bits 0x80 0xbf)

abbrev pub after_break : String × State → String × State
after_break (out, state) = (String.◌∷◌ replacement out, state)

-- A byte that cannot follow ends the character before it as ill-formed, and is read anew.
unfoldable pub next_byte : State → ℕ → String × State
unfolding first_byte
next_byte ready b = first_byte b
next_byte (inside k bits lo hi) b =
    if between lo b hi then more k (bits * 64 + (b - 0x80)) else after_break (first_byte b)

abbrev pub flush : State → String
flush ready = String.[]
flush (inside k bits lo hi) = String.◌∷◌ replacement String.[]

unfoldable pub decode_from : State → List ℕ → String
unfolding next_byte
decode_from state [] = flush state
decode_from state (b ∷ rest) =
    let (out, state') = next_byte state b in concat out (decode_from state' rest)

unfoldable pub decode : List ℕ → String
unfolding decode_from
decode bytes = decode_from ready bytes

-- The characters that a state still owes.
abbrev owed : State → ℕ
owed ready = 0
owed (inside k bits lo hi) = 1

abbrev cost : String × State → ℕ
cost (out, state) = text_length out + owed state

cost-first_byte : (b : ℕ) → cost (first_byte b) ≤ 1
unfolding first_byte
cost-first_byte b = go (ltb b 0x80) (lead b)
  where
    go :
        (plain : Bool) (s : Option State)
        → cost (if plain then (String.◌∷◌ (chr b) String.[], ready) else begin_with s) ≤ 1
    go true s = omega arith
    go false none = omega arith
    go false (some ready) = omega arith
    go false (some (inside k bits lo hi)) = omega arith

cost-next_byte : (state : State) (b : ℕ) → cost (next_byte state b) ≤ owed state + 1
unfolding next_byte
cost-next_byte ready b = cost-first_byte b
cost-next_byte (inside k bits lo hi) b = go (between lo b hi) k (first_byte b) (cost-first_byte b)
  where
    go :
        (fits : Bool) (k : ℕ) (fresh : String × State)
        → cost fresh ≤ 1
        → cost (if fits then more k (bits * 64 + (b - 0x80)) else after_break fresh) ≤ 2
    go true zero fresh h = omega arith
    go true (suc k) fresh h = omega arith
    go false k (out, state) h = omega (arith, h)

length-decode_from :
    (state : State) (bytes : List ℕ)
    → text_length (decode_from state bytes) ≤ owed state + length bytes
unfolding decode_from
length-decode_from ready [] = omega arith
length-decode_from (inside k bits lo hi) [] = omega arith
length-decode_from state (b ∷ rest) = omega (
  arith,
  text_length-concat (next_byte state b).0 (decode_from (next_byte state b).1 rest),
  cost-next_byte state b,
  length-decode_from (next_byte state b).1 rest,
)

-- No text is longer than the bytes that it was decoded from.
pub length-decode : (bytes : List ℕ) → text_length (decode bytes) ≤ length bytes
unfolding decode
length-decode bytes = omega (arith, length-decode_from ready bytes)
