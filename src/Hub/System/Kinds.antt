-- ===== src/Hub/System/Kinds.antt =====
-- domain/events.py and hub/server.py: the kinds of events that are sent to subscribers, and the fields that
-- each kind fills in.
use terok_clearance.Common.{
  String, true, ◌||◌, Option, none, some, List, [], ◌∷◌, ◌≡◌, refl, sym, ap, subst, arith, ◌∙◌,
  string_eq, ◌==◌, eq_of_beq, inl, inr, Bool-cases, All, contains, Returned, Returned-bind,
  Returned-ok,
}
use terok_clearance.Common.Int.{ℤ}
use terok_clearance.Domain.Events.{ClearanceEvent, Dossier, bare_event, verdict_actions}
use terok_clearance.Wire.Sanitize.{sanitize}
use terok_clearance.Hub.Payload.{Fields, item, int_of}
use terok_clearance.Hub.Translate.{
  wire_event_types, translate_blocked, translate_kind, translate_reader_event,
}
use terok_clearance.Hub.State.{Hub}
use terok_clearance.Hub.Relay.{admitted, admit, stamp, wire_type_of}
use terok_clearance.Hub.Relay.Admitted.{admitted_lem}
use terok_clearance.Hub.Verdict.{InFlight, Answer, outcome_event, verdict_reason_max_len}
use terok_clearance.Hub.Invariant.{IsFresh}
use terok_clearance.Hub.System.{Action, started, run}
use terok_clearance.Hub.System.Waiting.{waiting-All}

-- The two actions of `VERDICT_ACTIONS`.
pub data VerdictAction : Type 0 where
  allow deny : VerdictAction

-- What an event says of its container, by the list in the doc of `ClearanceEvent`. A verdict that was not applied has a reason.
pub data Kind : Type 0 where
  connection_blocked : String → String → ℤ → ℤ → String → Dossier → Kind
  verdict_applied : String → VerdictAction → Option String → Kind
  container_exited : String → Dossier → Kind
  container_started shield_up shield_down shield_disengaged : Dossier → Kind

abbrev pub action_text : VerdictAction → String
action_text allow = "allow"
action_text deny = "deny"

-- The events that domain/events.py lists, with the fields of each.
unfoldable pub event_of : String → Kind → ClearanceEvent
unfolding bare_event
event_of c (connection_blocked request_id dest port proto domain dossier) =
    record (bare_event "connection_blocked" c) {
      request_id = request_id;
      dest = dest;
      port = port;
      proto = proto;
      domain = domain;
      dossier = dossier;
    }
event_of c (verdict_applied request_id action none) = record (bare_event "verdict_applied" c) {
  request_id = request_id;
  action = action_text action;
  ok = true;
}
event_of c (verdict_applied request_id action (some reason)) =
    record (bare_event "verdict_applied" c) {
      request_id = request_id;
      action = action_text action;
      reason = reason;
    }
event_of c (container_exited reason dossier) = record (bare_event "container_exited" c) {
  reason = reason;
  dossier = dossier;
}
event_of c (container_started dossier) = record (bare_event "container_started" c) {
  dossier = dossier;
}
event_of c (shield_up dossier) = record (bare_event "shield_up" c) { dossier = dossier }
event_of c (shield_down dossier) = record (bare_event "shield_down" c) { dossier = dossier }
event_of c (shield_disengaged dossier) = record (bare_event "shield_disengaged" c) {
  dossier = dossier;
}

pub record IsDocumented (e : ClearanceEvent) : Type 0 where
  pub kind : Kind
  pub said : e ≡ event_of e.container kind

restamp : (c own : String) (k : Kind) → record (event_of c k) { container = own } ≡ event_of own k
unfolding event_of bare_event
restamp c own (connection_blocked request_id dest port proto domain dossier) = refl
restamp c own (verdict_applied request_id action none) = refl
restamp c own (verdict_applied request_id action (some reason)) = refl
restamp c own (container_exited reason dossier) = refl
restamp c own (container_started dossier) = refl
restamp c own (shield_up dossier) = refl
restamp c own (shield_down dossier) = refl
restamp c own (shield_disengaged dossier) = refl

stamp-IsDocumented : (hub : Hub) (e : ClearanceEvent) → IsDocumented e → IsDocumented (stamp hub e)
unfolding stamp
stamp-IsDocumented hub e h = go hub.container
  where
    go :
        (own : Option String)
        → IsDocumented (elim own [ none ↦ e | some c ↦ record e { container = c } ])
    go none = h
    go (some own) = record {
      kind = h.kind;
      said =
          ap (λ (x : ClearanceEvent). record x { container = own }) h.said
          ∙ restamp e.container own h.kind;
    }

All-contains :
    (P : String → Type 0) (x : String) (xs : List String) → All P xs → contains x xs ≡ true → P x
unfolding contains
All-contains P x [] h known = absurd (ground arith)
All-contains P x (y ∷ xs) h known = elim (Bool-cases (y == x)) [
  | inl same ↦ subst P (eq_of_beq y x same) h.0
  | inr other ↦ All-contains P x xs h.1 (rw other at known)
]

abbrev Translates : Fields → String → Type 0
Translates raw wire_type = Returned IsDocumented (translate_reader_event wire_type raw)

module _ (container : String) (dossier : Dossier) (raw : Fields) where
  blocked-IsDocumented :
      Returned IsDocumented (translate_blocked "connection_blocked" container dossier raw)
  unfolding translate_blocked event_of
  blocked-IsDocumented = Returned-bind _ (item "id" raw) _ λ id.
      Returned-bind _ (item "dest" raw) _ λ dest. Returned-bind _ (item "port" raw) _ λ raw_port.
        Returned-bind _ (int_of raw_port) _ λ port.
          Returned-bind _ (item "proto" raw) _ λ raw_proto.
            Returned-bind _ (int_of raw_proto) _
              λ proto. record { kind = connection_blocked _ _ _ _ _ _; said = refl }

Translates-all : (raw : Fields) → All (Translates raw) ("connection_blocked" ∷ wire_event_types)
unfolding translate_reader_event translate_kind event_of
Translates-all raw = (
  Returned-bind _ (item "container" raw) _ λ c. blocked-IsDocumented _ _ raw,
  (
    Returned-bind _ (item "container" raw) _
        λ c. record { kind = container_started _; said = refl },
    (
      Returned-bind _ (item "container" raw) _
          λ c. record { kind = container_exited _ _; said = refl },
      (
        Returned-bind _ (item "container" raw) _ λ c. record { kind = shield_up _; said = refl },
        (
          Returned-bind _ (item "container" raw) _
              λ c. record { kind = shield_down _; said = refl },
          (
            Returned-bind _ (item "container" raw) _
                λ c. record { kind = shield_disengaged _; said = refl },
            tt,
          ),
        ),
      ),
    ),
  ),
)

known-Translates :
    (raw : Fields) (wire_type : String)
    → (wire_type == "connection_blocked" || contains wire_type wire_event_types) ≡ true
    → Translates raw wire_type
known-Translates raw wire_type known = elim (Bool-cases (wire_type == "connection_blocked")) [
  | inl blocked ↦
      subst (Translates raw) (sym (eq_of_beq wire_type "connection_blocked" blocked))
        (Translates-all raw).0
  | inr other ↦
      All-contains (Translates raw) wire_type wire_event_types (Translates-all raw).1
        (rw other at known)
]

admitted-IsDocumented :
    (hub : Hub) (raw : Fields) (e : ClearanceEvent) → admit hub raw ≡ admitted e → IsDocumented e
admitted-IsDocumented hub raw e adm =
    let a = admitted_lem hub raw adm in
    subst IsDocumented (sym a.stamped) (
      stamp-IsDocumented hub a.translated (
        Returned-ok IsDocumented _ (known-Translates raw (wire_type_of a.raw_type) a.known)
          a.translation))

outcome-IsDocumented :
    (v : InFlight) (answer : Answer)
    → contains v.action verdict_actions ≡ true
    → IsDocumented (outcome_event v answer)
unfolding outcome_event event_of bare_event
outcome-IsDocumented v answer known = elim (Bool-cases answer.ok) [
  | inl applied ↦ rw applied (record {
    kind = verdict_applied v.request_id action.0 none;
    said =
        ap
          (λ (t : String). record (bare_event "verdict_applied" v.container) {
            request_id = v.request_id;
            action = t;
            ok = true;
          })
          action.1;
  })
  | inr refused ↦ rw refused (record {
    kind =
        verdict_applied v.request_id action.0
          (some (sanitize verdict_reason_max_len answer.stderr));
    said =
        ap
          (λ (t : String). record (bare_event "verdict_applied" v.container) {
            request_id = v.request_id;
            action = t;
            reason = sanitize verdict_reason_max_len answer.stderr;
          })
          action.1;
  })
]
  where
    action : (x : VerdictAction) × (v.action ≡ action_text x)
    action =
        All-contains (λ a. (x : VerdictAction) × (a ≡ action_text x)) v.action verdict_actions
          ((allow, refl), ((deny, refl), tt)) known

-- For a hub that starts fresh: whatever readers, clients and shield send, and in whatever order, every
-- event that waits for a subscriber is of one of the seven types that the event class lists, with only
-- the fields that are listed for its type filled in: a `verdict_applied` event has the action allow
-- or deny, and no reason where it was applied. An event of any other type is never sent on.
pub queues-IsDocumented :
    (actions : List Action) (hub : Hub)
    → IsFresh hub
    → All (λ s. All IsDocumented s.queue) (run actions (started hub)).hub.subscribers
queues-IsDocumented actions hub fresh =
    waiting-All IsDocumented (λ log k b. Unit) hub.container (λ e log k b p. tt)
      (λ h raw e log same adm bind. tt) (λ h raw e same adm. admitted-IsDocumented h raw e adm)
      (λ v answer log f. outcome-IsDocumented v answer f.action) actions hub fresh refl
