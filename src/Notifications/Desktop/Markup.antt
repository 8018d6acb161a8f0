-- ===== src/Notifications/Desktop/Markup.antt =====
-- notifications/desktop.py: the escapes, and what a renderer of Pango markup shows for them.
use text.Mathlib.TextEquality.{Char-path}
use terok_clearance.Common.{
  ℕ, zero, suc, Char, code, String, Bool, true, false, ◌&&◌, not, concat, nat_beq, nat_beq_iff,
  if◌then◌else◌, ◌≡◌, refl, sym, ap, ◌∙◌, inl, inr, Bool-cases,
}
use terok_clearance.Notifications.Desktop.{replace_char, replace_all, pango_escape}

-- The escape of one character.
abbrev pub escape_char : Char → String → String
escape_char c rest =
    if nat_beq (code c) b'&'
    then concat "&amp;" rest
    else if nat_beq (code c) b'<'
    then concat "&lt;" rest
    else if nat_beq (code c) b'>'
    then concat "&gt;" rest
    else String.◌∷◌ c rest

-- Each character escaped by itself, in one pass.
unfoldable pub escape_each : String → String
escape_each String.[] = String.[]
escape_each (String.◌∷◌ c s) = let rest = escape_each s in escape_char c rest

replace_here :
    (raw : ℕ) (escaped : String) (c : Char) (s : String)
    → nat_beq (code c) raw ≡ true
    → replace_char raw escaped (String.◌∷◌ c s) ≡ concat escaped (replace_char raw escaped s)
unfolding replace_char
replace_here raw escaped c s h = rw h refl

replace_other :
    (raw : ℕ) (escaped : String) (c : Char) (s : String)
    → nat_beq (code c) raw ≡ false
    → replace_char raw escaped (String.◌∷◌ c s) ≡ String.◌∷◌ c (replace_char raw escaped s)
unfolding replace_char
replace_other raw escaped c s h = rw h refl

abbrev amp : String → String
amp = replace_char b'&' "&amp;"

abbrev lt : String → String
lt = replace_char b'<' "&lt;"

abbrev gt : String → String
gt = replace_char b'>' "&gt;"

-- The later passes leave what the earlier ones wrote.
escape-cons :
    (c : Char) (s : String) → gt (lt (amp (String.◌∷◌ c s))) ≡ escape_char c (gt (lt (amp s)))
escape-cons c s = elim (Bool-cases (nat_beq (code c) b'&')) [
  | inl is_amp ↦ rw (is_amp, replace_here b'&' "&amp;" c s is_amp) (unfold replace_char in refl)
  | inr no_amp ↦
      rw (no_amp, replace_other b'&' "&amp;" c s no_amp)
        (elim (Bool-cases (nat_beq (code c) b'<')) [
          | inl is_lt ↦
              rw (is_lt, replace_here b'<' "&lt;" c (amp s) is_lt) (unfold replace_char in refl)
          | inr no_lt ↦
              rw (no_lt, replace_other b'<' "&lt;" c (amp s) no_lt)
                (elim (Bool-cases (nat_beq (code c) b'>')) [
                  | inl is_gt ↦ rw (is_gt, replace_here b'>' "&gt;" c (lt (amp s)) is_gt) refl
                  | inr no_gt ↦ rw (no_gt, replace_other b'>' "&gt;" c (lt (amp s)) no_gt) refl
                ])
        ])
]

-- The three passes over the text escape each character once.
pub pango_escape-each : (text : String) → pango_escape text ≡ escape_each text
unfolding pango_escape replace_all escape_each
pango_escape-each String.[] = unfold replace_char in refl
pango_escape-each (String.◌∷◌ c s) = escape-cons c s ∙ ap (escape_char c) (pango_escape-each s)

abbrev pub begins : String → String → Bool
begins String.[] s = true
begins (String.◌∷◌ c t) String.[] = false
begins (String.◌∷◌ c t) (String.◌∷◌ d s) = nat_beq (code c) (code d) && begins t s

-- The character that markup shows at a place, and how many characters of its entity follow it.
abbrev pub shown_at : Char → String → Char × ℕ
shown_at c s =
    if nat_beq (code c) b'&'
    then if begins "amp;" s
      then ("&", 4)
      else if begins "lt;" s
      then ("<", 3)
      else if begins "gt;" s
      then (">", 3)
      else (c, 0)
    else (c, 0)

-- The text that a renderer shows for markup without tags: the entities `&amp;`, `&lt;` and `&gt;`
-- are their characters. The number is how many characters are left of an entity.
unfoldable pub render_from : ℕ → String → String
render_from skip String.[] = String.[]
render_from zero (String.◌∷◌ c s) =
    let (shown, skip) = shown_at c s in String.◌∷◌ shown (render_from skip s)
render_from (suc skip) (String.◌∷◌ c s) = render_from skip s

abbrev pub render : String → String
render = render_from 0

-- Neither end of a tag is in the text.
unfoldable pub has_no_tag : String → Bool
has_no_tag String.[] = true
has_no_tag (String.◌∷◌ c s) =
    let rest = has_no_tag s in not (nat_beq (code c) b'<') && not (nat_beq (code c) b'>') && rest

same_char : (c d : Char) → nat_beq (code c) (code d) ≡ true → d ≡ c
same_char c d h = sym (Char-path c d ((nat_beq_iff (code c) (code d)).0 h))

render-escape_char :
    (c : Char) (rest : String) → render (escape_char c rest) ≡ String.◌∷◌ c (render rest)
unfolding render_from
render-escape_char c rest = elim (Bool-cases (nat_beq (code c) b'&')) [
  | inl is_amp ↦ rw is_amp (ap (λ d. String.◌∷◌ d (render rest)) (same_char c "&" is_amp))
  | inr no_amp ↦ rw no_amp (elim (Bool-cases (nat_beq (code c) b'<')) [
    | inl is_lt ↦ rw is_lt (ap (λ d. String.◌∷◌ d (render rest)) (same_char c "<" is_lt))
    | inr no_lt ↦ rw no_lt (elim (Bool-cases (nat_beq (code c) b'>')) [
      | inl is_gt ↦ rw is_gt (ap (λ d. String.◌∷◌ d (render rest)) (same_char c ">" is_gt))
      | inr no_gt ↦ rw (no_gt, no_amp) refl
    ])
  ])
]

has_no_tag-escape_char :
    (c : Char) (rest : String) → has_no_tag rest ≡ true → has_no_tag (escape_char c rest) ≡ true
unfolding has_no_tag
has_no_tag-escape_char c rest h = elim (Bool-cases (nat_beq (code c) b'&')) [
  | inl is_amp ↦ rw is_amp h
  | inr no_amp ↦ rw no_amp (elim (Bool-cases (nat_beq (code c) b'<')) [
    | inl is_lt ↦ rw is_lt h
    | inr no_lt ↦ rw no_lt (elim (Bool-cases (nat_beq (code c) b'>')) [
      | inl is_gt ↦ rw is_gt h
      | inr no_gt ↦ rw (no_gt, no_lt, no_gt) h
    ])
  ])
]

render-each : (text : String) → render (escape_each text) ≡ text
unfolding escape_each
render-each String.[] = unfold render_from in refl
render-each (String.◌∷◌ c s) =
    render-escape_char c (escape_each s) ∙ ap (λ t. String.◌∷◌ c t) (render-each s)

has_no_tag-each : (text : String) → has_no_tag (escape_each text) ≡ true
unfolding escape_each
has_no_tag-each String.[] = unfold has_no_tag in refl
has_no_tag-each (String.◌∷◌ c s) = has_no_tag-escape_char c (escape_each s) (has_no_tag-each s)

-- For every text: its escaped form holds neither end of a tag, and a renderer of markup shows the text
-- itself for it, character for character. Nothing in a text is read as markup or escaped twice.
pub render-pango_escape :
    (text : String) → (has_no_tag (pango_escape text) ≡ true) × (render (pango_escape text) ≡ text)
render-pango_escape text = rw (pango_escape-each text) (has_no_tag-each text, render-each text)
