-- ===== src/Client/Popups.antt =====
-- client/subscriber.py: the notifications that `EventSubscriber` posts. `title()` and `capitalize()`
-- are of ASCII letters.
use Prim.Native.Nat.{◌-◌}
use terok_clearance.Common.{
  ℕ, ◌+◌, Char, code, String, Bool, true, false, ◌&&◌, ◌||◌, not, none, some, List, [], ◌∷◌, map,
  Dict, string_eq, get, concat, truthy, leb, nat_beq, str_of_ℤ, if◌then◌else◌,
}
use terok_clearance.Common.Int.{ℤ, pos, negsuc}
use terok_clearance.Common.Utf8.{chr}
use terok_clearance.Domain.Events.{Dossier, ClearanceEvent, verdict_actions}
use terok_clearance.Client.Rendering.{
  NotifyIdentity, identity_label, identity_line, blocked_body, notify_kwargs,
}

-- `urgency`, `resident` and `transient`, the last two where they are set
pub record Hints : Type 0 where
  pub urgency : ℕ
  pub resident : Bool
  pub transient : Bool

abbrev pub hint_block_pending : Hints
hint_block_pending = record { urgency = 2; resident = true; transient = false }

abbrev pub hint_security_alert : Hints
hint_security_alert = record { urgency = 2; resident = false; transient = false }

abbrev pub hint_confirmation : Hints
hint_confirmation = record { urgency = 1; resident = false; transient = true }

abbrev pub hint_lifecycle : Hints
hint_lifecycle = record { urgency = 0; resident = false; transient = true }

-- The arguments of one call of `notify`.
pub record Popup : Type 0 where
  pub summary : String
  pub body : String
  pub actions : List (String × String)
  pub hints : Hints
  pub timeout_ms : ℤ
  pub replaces_id : ℕ
  pub container_id : String
  pub identity : NotifyIdentity

-- A popup without actions, which asks for the server's default time-out.
abbrev pub popup : String → String → Hints → ℕ → String → Dossier → Popup
popup summary body hints replaces_id container dossier = record {
  summary = summary;
  body = body;
  actions = [];
  hints = hints;
  timeout_ms = negsuc 0;
  replaces_id = replaces_id;
  container_id = container;
  identity = notify_kwargs dossier;
}

-- `_PROTO_NAMES.get(proto, str(proto))`
unfoldable pub proto_name : ℤ → String
proto_name (pos n) = if nat_beq n 6 then "TCP" else if nat_beq n 17 then "UDP" else str_of_ℤ (pos n)
proto_name (negsuc n) = str_of_ℤ (negsuc n)

abbrev pub is_upper : Char → Bool
is_upper c = leb b'A' (code c) && leb (code c) b'Z'

abbrev pub is_lower : Char → Bool
is_lower c = leb b'a' (code c) && leb (code c) b'z'

-- A letter as the first of a word, or after another letter.
unfoldable pub cased : Bool → Char → Char
unfolding chr
cased inside c =
    if is_lower c && not inside
    then chr (code c - 32)
    else if is_upper c && inside
    then chr (code c + 32)
    else c

-- The rest of `title()`, after a letter or not.
unfoldable pub title_from : Bool → String → String
unfolding cased
title_from inside String.[] = String.[]
title_from inside (String.◌∷◌ c s) =
    String.◌∷◌ (cased inside c) (title_from (is_lower c || is_upper c) s)

-- `action.title()`
abbrev pub title : String → String
title = title_from false

unfoldable pub lower_all : String → String
unfolding cased
lower_all String.[] = String.[]
lower_all (String.◌∷◌ c s) = String.◌∷◌ (cased true c) (lower_all s)

-- `a.capitalize()`
unfoldable pub capitalize : String → String
unfolding cased lower_all
capitalize String.[] = String.[]
capitalize (String.◌∷◌ c s) = String.◌∷◌ (cased false c) (lower_all s)

-- `[(a, a.capitalize()) for a in VERDICT_ACTIONS]`
abbrev pub verdict_buttons : List (String × String)
verdict_buttons = map (λ a. (a, capitalize a)) verdict_actions

-- The prompt of `_handle_connection_blocked`, from the notification that it replaces.
unfoldable pub block_popup : ClearanceEvent → String → ℕ → String → ℕ → Popup
unfolding blocked_body proto_name capitalize
block_popup event target count first_seen replaces_id = record {
  summary = concat "Blocked: " (concat target (concat ":" (str_of_ℤ event.port)));
  body = blocked_body event.dossier event.container (proto_name event.proto) count first_seen;
  actions = verdict_buttons;
  hints = hint_block_pending;
  timeout_ms = pos 0;
  replaces_id = replaces_id;
  container_id = event.container;
  identity = notify_kwargs event.dossier;
}

abbrev pub success_titles : Dict String String
success_titles = ("allow", "Allowed") ∷ ("deny", "Denied") ∷ []

abbrev pub failure_titles : Dict String String
failure_titles = ("allow", "Allow failed") ∷ ("deny", "Deny failed") ∷ []

-- The word for the outcome of a verdict.
unfoldable pub outcome_title : Bool → String → String
unfolding title_from
outcome_title true action = elim (get action success_titles) [ none ↦ title action | some t ↦ t ]
outcome_title false action = elim (get action failure_titles) [
  | none ↦ concat (title action) " failed"
  | some t ↦ t
]

-- The popup of `_handle_verdict_applied`, on a pending block's notification, container, target and
-- dossier.
unfoldable pub outcome_popup : ClearanceEvent → ℕ → String → String → Dossier → Popup
unfolding outcome_title identity_line
outcome_popup event nid container target dossier =
    let line = identity_line dossier container in
    popup (concat (outcome_title event.ok event.action) (concat ": " target))
      (if not event.ok && truthy event.reason then concat line (concat "\n" event.reason) else line)
      (if event.ok then hint_confirmation else hint_security_alert) nid container dossier

-- The popup of `_notify_shield_down`
unfoldable pub shield_down_popup : String → Dossier → Bool → ℕ → Popup
unfolding identity_label
shield_down_popup container dossier allow_all replaces_id =
    let label = identity_label dossier container in
    popup (concat (if allow_all then "Shield disengaged: " else "Shield down: ") label)
      (if allow_all
        then "Outbound firewall disengaged — every destination is reachable."
        else "Outbound firewall bypassed — allowlist is not enforced.")
      hint_security_alert replaces_id container dossier

-- The popup of `_notify_shield_up`
unfoldable pub shield_up_popup : String → Dossier → Popup
unfolding identity_label
shield_up_popup container dossier =
    popup (concat "Shield up: " (identity_label dossier container)) "Outbound firewall restored."
      hint_confirmation 0 container dossier

-- The popup of `_notify_container_started`
unfoldable pub started_popup : String → Dossier → Popup
unfolding identity_label
started_popup container dossier =
    popup (concat "Container started: " (identity_label dossier container)) "" hint_lifecycle 0
      container dossier

-- The popup of `_notify_container_exited`
unfoldable pub exited_popup : String → String → Dossier → Popup
unfolding identity_label
exited_popup container reason dossier =
    popup (concat "Container stopped: " (identity_label dossier container))
      (if truthy reason then concat "Reason: " reason else "") hint_lifecycle 0 container dossier
