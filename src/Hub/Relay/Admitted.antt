-- ===== src/Hub/Relay/Admitted.antt =====
-- hub/server.py: which reader events the hub acts on.
use terok_clearance.Common.{
  String, true, false, ◌||◌, Option, none, some, Result, ok, raise, PyError, overflow_error, ◌≡◌,
  refl, string_eq, ◌==◌, inl, inr, Bool-cases, contains,
}
use terok_clearance.Domain.Events.{ClearanceEvent}
use terok_clearance.Hub.Payload.{Json, text, array, object, Fields, get_field}
use terok_clearance.Hub.Translate.{translate_reader_event, wire_event_types}
use terok_clearance.Hub.State.{Hub}
use terok_clearance.Hub.Relay.{
  Admission, dropped, failed, admitted, stamp, is_muted_prompt, screen, admit_type, admit,
  wire_type_of,
}

-- The event is the translation of the reader's object under a known type, stamped with the hub's own
-- key, and no prompt of a muted container.
pub record IsAdmitted (hub : Hub) (raw : Fields) (event : ClearanceEvent) : Type 0 where
  pub raw_type : String
  pub translated : ClearanceEvent
  pub typed : get_field "type" raw ≡ some (text raw_type)
  pub known :
      (wire_type_of raw_type == "connection_blocked"
        || contains (wire_type_of raw_type) wire_event_types)
      ≡ true
  pub translation : translate_reader_event (wire_type_of raw_type) raw ≡ ok translated
  pub stamped : event ≡ stamp hub translated
  pub audible : is_muted_prompt hub event ≡ false

abbrev Admits : (ClearanceEvent → Type 0) → Admission → Type 0
Admits P dropped = Unit
Admits P (failed e) = Unit
Admits P (admitted event) = P event

module _ (hub : Hub) (raw : Fields) where
  screen_lem :
      (raw_type : String) (r : Result PyError ClearanceEvent)
      → get_field "type" raw ≡ some (text raw_type)
      → (wire_type_of raw_type == "connection_blocked"
          || contains (wire_type_of raw_type) wire_event_types)
        ≡ true
      → translate_reader_event (wire_type_of raw_type) raw ≡ r
      → Admits (IsAdmitted hub raw) (screen hub r)
  unfolding screen
  screen_lem raw_type (raise overflow_error) typed known e = tt
  screen_lem raw_type (raise _) typed known e = tt
  screen_lem raw_type (ok t) typed known e = elim (Bool-cases (is_muted_prompt hub (stamp hub t))) [
    | inl muted ↦ rw muted tt
    | inr audible ↦ rw audible (record {
      raw_type = raw_type;
      translated = t;
      typed = typed;
      known = known;
      translation = e;
      stamped = refl;
      audible = audible;
    })
  ]

  admit_type_lem :
      (json : Json)
      → get_field "type" raw ≡ some json
      → Admits (IsAdmitted hub raw) (admit_type hub raw json)
  unfolding admit_type
  admit_type_lem (text raw_type) typed =
      elim (Bool-cases (
        wire_type_of raw_type == "connection_blocked"
        || contains (wire_type_of raw_type) wire_event_types)) [
          | inl known ↦ rw known (
              screen_lem raw_type (translate_reader_event (wire_type_of raw_type) raw) typed known
                refl)
          | inr unknown ↦ rw unknown tt
        ]
  admit_type_lem (array shown) typed = tt
  admit_type_lem (object shown fields) typed = tt
  admit_type_lem _ typed = tt

  admits : Admits (IsAdmitted hub raw) (admit hub raw)
  unfolding admit
  admits = go (get_field "type" raw) refl
    where
      go :
          (json : Option Json)
          → get_field "type" raw ≡ json
          → Admits
              (IsAdmitted hub raw)
              (elim json [ none ↦ dropped | some t ↦ admit_type hub raw t ])
      go none typed = tt
      go (some json) typed = admit_type_lem json typed

  pub admitted_lem :
      {event : ClearanceEvent} → admit hub raw ≡ admitted event → IsAdmitted hub raw event
  admitted_lem e = rw e at admits
