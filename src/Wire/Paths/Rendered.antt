-- ===== src/Wire/Paths/Rendered.antt =====
-- wire/socket.py and client/subscriber.py: a path that is written out and read again.
use terok_clearance.Common.{
  String, Bool, true, false, not, ◌&&◌, ◌||◌, List, [], ◌∷◌, string_eq, nat_eq, ◌==◌, concat,
  truthy, or_else, All, if◌then◌else◌, ◌≡◌, refl, sym, ap, ◌∙◌, inl, inr, Bool-cases,
}
use terok_clearance.Wire.Paths.{
  is_slash, path_parts, Root, relative, single, double, root_text, parts_text, PosixPath, path_text,
  root_of, join_path, join_at,
}

unfoldable pub has_slash : String → Bool
has_slash String.[] = false
has_slash (String.◌∷◌ c s) = is_slash c || has_slash s

-- A name that a directory may have, but for the two dots, which `pathlib` keeps.
pub record IsName (name : String) : Type 0 where
  pub whole : has_slash name ≡ false
  pub filled : truthy name ≡ true
  pub no_dot : (name == ".") ≡ false

concat_assoc : (s t u : String) → concat (concat s t) u ≡ concat s (concat t u)
concat_assoc String.[] t u = refl
concat_assoc (String.◌∷◌ c s) t u = ap (String.◌∷◌ c) (concat_assoc s t u)

concat-empty : (s : String) → concat s "" ≡ s
concat-empty String.[] = refl
concat-empty (String.◌∷◌ c s) = ap (String.◌∷◌ c) (concat-empty s)

-- A name is read to its end as one part.
scan_name :
    (name part rest : String) (parts : List String)
    → has_slash name ≡ false
    → path_parts (concat name rest) part parts ≡ path_parts rest (concat part name) parts
unfolding path_parts has_slash
scan_name String.[] part rest parts whole =
    ap (λ p. path_parts rest p parts) (sym (concat-empty part))
scan_name (String.◌∷◌ c s) part rest parts whole = elim (Bool-cases (is_slash c)) [
  | inl slash ↦ absurd (cc (rw slash at whole))
  | inr other ↦
      rw (other, path_parts)
        (scan_name s (concat part (String.◌∷◌ c "")) rest parts (rw other at whole)
          ∙ ap (λ p. path_parts rest p parts) (concat_assoc part (String.◌∷◌ c "") s))
]

kept :
    (n : String) (ns : List String)
    → IsName n
    → (if truthy n && not (n == ".") then n ∷ ns else ns) ≡ n ∷ ns
kept n ns h = rw (h.filled, h.no_dot) refl

slash-path_parts :
    (n : String) (ns : List String) (s : String)
    → IsName n
    → path_parts (concat "/" s) n ns ≡ path_parts s "" (n ∷ ns)
unfolding path_parts
slash-path_parts n ns s h = ap (path_parts s "") (kept n ns h)

-- Names that are written out are read up to the last, whatever follows.
scan_names :
    (name : String) (parts : List String) (rest : String)
    → All IsName (name ∷ parts)
    → path_parts (concat (parts_text (name ∷ parts)) rest) "" [] ≡ path_parts rest name parts
unfolding parts_text
scan_names name [] rest h = scan_name name "" rest [] h.0.whole
scan_names name (parent ∷ parts) rest h =
    ap (λ s. path_parts s "" []) (concat_assoc (parts_text (parent ∷ parts)) (concat "/" name) rest)
    ∙ scan_names parent parts (concat "/" (concat name rest)) h.1
    ∙ slash-path_parts parent parts (concat name rest) h.1.0
    ∙ scan_name name "" rest (parent ∷ parts) h.0.whole

relative_parts :
    (name : String) (parts : List String)
    → All IsName (name ∷ parts)
    → path_parts (parts_text (name ∷ parts)) "" [] ≡ name ∷ parts
unfolding path_parts
relative_parts name parts h =
    ap (λ s. path_parts s "" []) (sym (concat-empty (parts_text (name ∷ parts))))
    ∙ scan_names name parts "" h
    ∙ kept name parts h.0

-- Names after a root are read as these names.
pub path_parts-parts_text :
    (root : Root) (name : String) (parts : List String)
    → All IsName (name ∷ parts)
    → path_parts (concat (root_text root) (parts_text (name ∷ parts))) "" [] ≡ name ∷ parts
unfolding path_parts
path_parts-parts_text relative name parts h = relative_parts name parts h
path_parts-parts_text single name parts h = relative_parts name parts h
path_parts-parts_text double name parts h = relative_parts name parts h

no_slash-concat :
    (s t : String) → has_slash s ≡ false → has_slash t ≡ false → has_slash (concat s t) ≡ false
unfolding has_slash
no_slash-concat String.[] t h k = k
no_slash-concat (String.◌∷◌ c s) t h k = elim (Bool-cases (is_slash c)) [
  | inl slash ↦ absurd (cc (rw slash at h))
  | inr other ↦ rw other (no_slash-concat s t (rw other at h) k)
]

kept-All :
    (part : String) (parts : List String)
    → has_slash part ≡ false
    → All IsName parts
    → All IsName (if truthy part && not (part == ".") then part ∷ parts else parts)
kept-All part parts whole h = elim (Bool-cases (truthy part)) [
  | inl filled ↦ elim (Bool-cases (part == ".")) [
    | inl dot ↦ rw (filled, dot) h
    | inr name ↦ rw (filled, name) (record { whole = whole; filled = filled; no_dot = name }, h)
  ]
  | inr empty ↦ rw empty h
]

-- Whatever text is read as a path, its parts are names.
pub path_parts-All :
    (text part : String) (parts : List String)
    → has_slash part ≡ false
    → All IsName parts
    → All IsName (path_parts text part parts)
unfolding path_parts has_slash
path_parts-All String.[] part parts whole h = kept-All part parts whole h
path_parts-All (String.◌∷◌ c s) part parts whole h = elim (Bool-cases (is_slash c)) [
  | inl slash ↦ rw slash (path_parts-All s "" _ refl (kept-All part parts whole h))
  | inr other ↦ rw other (
      path_parts-All s (concat part (String.◌∷◌ c "")) parts
        (no_slash-concat part (String.◌∷◌ c "") whole (rw other refl)) h)
]

concat-truthy : (s t : String) → truthy t ≡ true → truthy (concat s t) ≡ true
concat-truthy String.[] t h = h
concat-truthy (String.◌∷◌ c s) t h = refl

parts_text-truthy :
    (name : String) (parts : List String) → IsName name → truthy (parts_text (name ∷ parts)) ≡ true
unfolding parts_text
parts_text-truthy name [] h = h.filled
parts_text-truthy name (parent ∷ parts) h =
    concat-truthy (parts_text (parent ∷ parts)) (concat "/" name) refl

or_else-truthy : (s t : String) → truthy s ≡ true → or_else s t ≡ s
or_else-truthy String.[] t h = absurd (cc h)
or_else-truthy (String.◌∷◌ c s) t h = refl

-- A path that ends in a name, of names only, is written out without a dot and read as it was.
pub path_parts-path_text :
    (root : Root) (name : String) (parts : List String)
    → All IsName (name ∷ parts)
    → path_parts (path_text (record { root = root; parts = name ∷ parts })) "" [] ≡ name ∷ parts
unfolding path_text
path_parts-path_text root name parts h =
    ap (λ s. path_parts s "" [])
      (or_else-truthy (concat (root_text root) (parts_text (name ∷ parts))) "." (
        concat-truthy (root_text root) (parts_text (name ∷ parts))
          (parts_text-truthy name parts h.0)))
    ∙ path_parts-parts_text root name parts h

name-relative : (name : String) → has_slash name ≡ false → root_of name ≡ relative
unfolding has_slash
name-relative String.[] whole = refl
name-relative (String.◌∷◌ c s) whole = elim (Bool-cases (is_slash c)) [
  | inl slash ↦ absurd (cc (rw slash at whole))
  | inr other ↦ rw other refl
]

-- A name that is joined to a path is one part more.
pub join_path-IsName :
    (p : PosixPath) (name : String)
    → IsName name
    → join_path p name ≡ record p { parts = name ∷ p.parts }
unfolding join_path path_parts
join_path-IsName p name h =
    ap (λ r. join_at r name p) (name-relative name h.whole)
    ∙ ap (λ ps. record p { parts = ps })
        (ap (λ s. path_parts s "" p.parts) (sym (concat-empty name))
          ∙ scan_name name "" "" p.parts h.whole
          ∙ kept name p.parts h)
