-- ===== src/Hub/System/WireText.antt =====
-- hub/server.py: the text rule of the wire and the events that are fanned out.
use terok_clearance.Common.{
  ℕ, String, true, Option, none, some, ◌≡◌, sym, subst, arith, string_eq, nat_eq, ◌==◌, inl, inr,
  Bool-cases, Returned-ok, contains, eq_of_beq, or_else,
}
use terok_clearance.Domain.Events.{ClearanceEvent, verdict_actions, bare_event}
use terok_clearance.Wire.Sanitize.{default_max_len}
use terok_clearance.Wire.Sanitize.Output.{IsWire, sanitize-IsWire}
use terok_clearance.Hub.Payload.{Fields}
use terok_clearance.Hub.Translate.Clean.{IsClean, empty-IsWire, translate-IsClean}
use terok_clearance.Hub.State.{Hub, Binding}
use terok_clearance.Hub.Relay.{admitted, admit, stamp}
use terok_clearance.Hub.Relay.Admitted.{admitted_lem}
use terok_clearance.Hub.Verdict.{InFlight, Answer, outcome_event}
use terok_clearance.Hub.System.Knowing.{IsFlight}

-- The key of a hub's own container, where it has one.
abbrev pub IsWireKey : Option String → Type 0
IsWireKey none = Unit
IsWireKey (some own) = IsWire default_max_len own

pub record IsWireBinding (k : String) (b : Binding) : Type 0 where
  pub request_id : IsWire default_max_len k
  pub container : IsWire default_max_len b.0
  pub target : IsWire default_max_len b.1

pub or_else-IsWire : (n : ℕ) (s t : String) → IsWire n s → IsWire n t → IsWire n (or_else s t)
or_else-IsWire n String.[] t h k = k
or_else-IsWire n (String.◌∷◌ c s) t h k = h

stamp-IsClean :
    (own : Option String) (hub : Hub) (e : ClearanceEvent)
    → hub.container ≡ own
    → IsWireKey own
    → IsClean e
    → IsClean (stamp hub e)
unfolding stamp
stamp-IsClean none hub e same key h = rw same h
stamp-IsClean (some own) hub e same key h = rw same (record {
  container = key;
  request_id = h.request_id;
  dest = h.dest;
  domain = h.domain;
  action = h.action;
  reason = h.reason;
  dossier = h.dossier;
})

pub admitted-IsClean :
    (own : Option String) (hub : Hub) (raw : Fields) (e : ClearanceEvent)
    → hub.container ≡ own
    → IsWireKey own
    → admit hub raw ≡ admitted e
    → IsClean e
admitted-IsClean own hub raw e same key adm =
    let a = admitted_lem hub raw adm in
    subst IsClean (sym a.stamped) (
      stamp-IsClean own hub a.translated same key
        (Returned-ok IsClean _ (translate-IsClean _ raw) a.translation))

-- An action of the vocabulary is a text of the wire.
action-IsWire : (a : String) → contains a verdict_actions ≡ true → IsWire default_max_len a
unfolding contains
action-IsWire a known = elim (Bool-cases ("allow" == a)) [
  | inl allow ↦ subst (IsWire 256) (eq_of_beq "allow" a allow) (omega arith)
  | inr other ↦ elim (Bool-cases ("deny" == a)) [
    | inl deny ↦ subst (IsWire 256) (eq_of_beq "deny" a deny) (omega arith)
    | inr neither ↦ absurd (ground arith)
  ]
]

pub outcome-IsClean :
    (v : InFlight) (answer : Answer)
    → IsFlight (IsWireBinding v.request_id) v
    → IsClean (outcome_event v answer)
unfolding outcome_event bare_event
outcome-IsClean v answer f = record {
  container = subst (IsWire 256) f.container f.known.container;
  request_id = f.known.request_id;
  dest = empty-IsWire 256;
  domain = empty-IsWire 256;
  action = action-IsWire v.action f.action;
  reason = elim (Bool-cases answer.ok) [
    | inl applied ↦ rw applied (empty-IsWire 512)
    | inr refused ↦ rw refused (sanitize-IsWire 512 answer.stderr)
  ];
  dossier = tt;
}
