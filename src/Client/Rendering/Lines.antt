-- ===== src/Client/Rendering/Lines.antt =====
-- client/subscriber.py: the lines of a notification's body.
use terok_clearance.Common.{
  ℕ, zero, suc, ◌+◌, String, code, Bool, true, false, Option, none, some, string_eq, nat_eq, ◌==◌,
  get, concat, truthy, or_else, ltb, if◌then◌else◌, ◌≡◌, refl, arith, str_of_ℕ, digits_before,
  digit_char, All, Bool-cases, Entries-get, inl, inr, ap, ◌∙◌,
}
use Prim.Native.Nat.{◌/◌, ◌%◌}
use terok_clearance.Domain.Events.{Dossier, dossier_project, dossier_task, dossier_name}
use terok_clearance.Wire.Sanitize.Output.{IsPrintable}
use terok_clearance.Client.Rendering.{entry, names_task, identity_line, blocked_body}

-- The number of line feeds in a text.
unfoldable pub line_feeds : String → ℕ
line_feeds String.[] = 0
line_feeds (String.◌∷◌ c s) = let rest = line_feeds s in if code c == 10 then suc rest else rest

line_feeds-concat : (s t : String) → line_feeds (concat s t) ≡ line_feeds s + line_feeds t
unfolding line_feeds
line_feeds-concat String.[] t = omega arith
line_feeds-concat (String.◌∷◌ c s) t = ground (arith, line_feeds-concat s t)

-- A text of one line.
abbrev pub IsLine : String → Type 0
IsLine s = line_feeds s ≡ 0

concat-IsLine : (s t : String) → IsLine s → IsLine t → IsLine (concat s t)
concat-IsLine s t h k = omega (arith, line_feeds-concat s t)

pub printable-IsLine : (s : String) → IsPrintable s → IsLine s
unfolding line_feeds
printable-IsLine String.[] h = refl
printable-IsLine (String.◌∷◌ c s) h = ground (arith, h.0, printable-IsLine s h.2)

digit-IsLine : (d : ℕ) (acc : String) → IsLine acc → IsLine (String.◌∷◌ (digit_char d) acc)
unfolding line_feeds
digit-IsLine zero acc h = h
digit-IsLine (suc zero) acc h = h
digit-IsLine (suc (suc zero)) acc h = h
digit-IsLine (suc (suc (suc zero))) acc h = h
digit-IsLine (suc (suc (suc (suc zero)))) acc h = h
digit-IsLine (suc (suc (suc (suc (suc zero))))) acc h = h
digit-IsLine (suc (suc (suc (suc (suc (suc zero)))))) acc h = h
digit-IsLine (suc (suc (suc (suc (suc (suc (suc zero))))))) acc h = h
digit-IsLine (suc (suc (suc (suc (suc (suc (suc (suc zero)))))))) acc h = h
digit-IsLine (suc (suc (suc (suc (suc (suc (suc (suc (suc n))))))))) acc h = h

digits-IsLine : (fuel n : ℕ) (acc : String) → IsLine acc → IsLine (digits_before fuel n acc)
unfolding digits_before
digits-IsLine zero n acc h = h
digits-IsLine (suc fuel) n acc h =
    go (ltb n 10) (String.◌∷◌ (digit_char (n % 10)) acc)
      (digits_before fuel (n / 10) (String.◌∷◌ (digit_char (n % 10)) acc))
      (digit-IsLine (n % 10) acc h)
      (digits-IsLine fuel (n / 10) (String.◌∷◌ (digit_char (n % 10)) acc)
        (digit-IsLine (n % 10) acc h))
  where
    go : (b : Bool) (x y : String) → IsLine x → IsLine y → IsLine (if b then x else y)
    go true x y h k = h
    go false x y h k = k

-- Every value of the dossier is one line.
abbrev pub AreLines : Dossier → Type 0
AreLines dossier = All (λ kv. IsLine kv.1) dossier

entry-IsLine : (k : String) (d : Dossier) → AreLines d → IsLine (entry k d)
unfolding entry line_feeds
entry-IsLine k d h = go (get k d) refl
  where
    go : (o : Option String) → get k d ≡ o → IsLine (elim o [ none ↦ "" | some value ↦ value ])
    go none missing = refl
    go (some v) found = Entries-get (λ j w. IsLine w) k v d h found

if-IsLine : (b : Bool) (x y : String) → IsLine x → IsLine y → IsLine (if b then x else y)
if-IsLine true x y h k = h
if-IsLine false x y h k = k

or_else-IsLine : (s t : String) → IsLine s → IsLine t → IsLine (or_else s t)
or_else-IsLine String.[] t h k = k
or_else-IsLine (String.◌∷◌ c s) t h k = h

identity_line-IsLine :
    (dossier : Dossier) (fallback_id : String)
    → AreLines dossier
    → IsLine fallback_id
    → IsLine (identity_line dossier fallback_id)
unfolding identity_line line_feeds
identity_line-IsLine dossier fallback_id h k =
    concat-IsLine (if names_task dossier then "Task" else "Container") (concat ": " label)
      (if-IsLine (names_task dossier) "Task" "Container" refl refl)
      (concat-IsLine ": " label refl (
        if-IsLine (names_task dossier) (if truthy name then named else core)
          (or_else name fallback_id)
          (if-IsLine (truthy name) named core
            (concat-IsLine core (concat " · " name) core-IsLine
              (concat-IsLine " · " name refl (entry-IsLine dossier_name dossier h)))
            core-IsLine)
          (or_else-IsLine name fallback_id (entry-IsLine dossier_name dossier h) k)))
  where
    name : String
    name = entry dossier_name dossier

    core : String
    core = concat (entry dossier_project dossier) (concat "/" (entry dossier_task dossier))

    named : String
    named = concat core (concat " · " name)

    label : String
    label =
        if names_task dossier then if truthy name then named else core else or_else name fallback_id

    core-IsLine : IsLine core
    core-IsLine =
        concat-IsLine (entry dossier_project dossier) (concat "/" (entry dossier_task dossier))
          (entry-IsLine dossier_project dossier h)
          (concat-IsLine "/" (entry dossier_task dossier) refl
            (entry-IsLine dossier_task dossier h))

next_line : (s t : String) → IsLine s → line_feeds (concat s (concat "\n" t)) ≡ suc (line_feeds t)
unfolding line_feeds
next_line s t h = omega (arith, h, line_feeds-concat s (concat "\n" t))

-- Where the dossier's values, the container's key, the protocol and the time are each one line, as
-- sanitised texts are, the body of a blocked connection is two lines, and three where it was blocked more than
-- once: nothing that a container chose adds a line of its own.
pub line_feeds-blocked_body :
    (dossier : Dossier) (fallback_id proto_name : String) (count : ℕ) (first_seen : String)
    → AreLines dossier
    → IsLine fallback_id
    → IsLine proto_name
    → IsLine first_seen
    → line_feeds (blocked_body dossier fallback_id proto_name count first_seen)
      ≡ (if ltb 1 count then 2 else 1)
unfolding blocked_body line_feeds
line_feeds-blocked_body dossier fallback_id proto_name count first_seen d f p t =
    elim (Bool-cases (ltb 1 count)) [
      | inl many ↦ rw many (
          next_line identity _ identity-IsLine
          ∙ ap suc (next_line protocol again protocol-IsLine ∙ ap suc again-IsLine))
      | inr once ↦ rw once (next_line identity protocol identity-IsLine ∙ ap suc protocol-IsLine)
    ]
  where
    identity : String
    identity = identity_line dossier fallback_id

    protocol : String
    protocol = concat "Protocol: " proto_name

    again : String
    again = concat "Blocked " (concat (str_of_ℕ count) (concat " times since " first_seen))

    identity-IsLine : IsLine identity
    identity-IsLine = identity_line-IsLine dossier fallback_id d f

    protocol-IsLine : IsLine protocol
    protocol-IsLine = concat-IsLine "Protocol: " proto_name refl p

    again-IsLine : IsLine again
    again-IsLine =
        concat-IsLine "Blocked " (concat (str_of_ℕ count) (concat " times since " first_seen)) refl
          (concat-IsLine (str_of_ℕ count) (concat " times since " first_seen)
            (unfold str_of_ℕ in digits-IsLine (suc count) count String.[] refl)
            (concat-IsLine " times since " first_seen refl t))
