-- ===== src/Hub/Translate/Kind.antt =====
-- hub/server.py: the type of the event that `_translate_reader_event` returns.
use terok_clearance.Common.{
  String, ◌≡◌, refl, string_eq, ◌==◌, Bool-cases, inl, inr, Returned, Returned-bind,
}
use terok_clearance.Domain.Events.{ClearanceEvent, Dossier, bare_event}
use terok_clearance.Hub.Payload.{Fields, item, int_of}
use terok_clearance.Hub.Translate.{translate_blocked, translate_kind, translate_reader_event}

abbrev HasType : String → ClearanceEvent → Type 0
HasType wire_type e = e.type ≡ wire_type

module _ (wire_type container : String) (dossier : Dossier) (raw : Fields) where
  translate_blocked-type :
      Returned (HasType wire_type) (translate_blocked wire_type container dossier raw)
  unfolding translate_blocked bare_event
  translate_blocked-type = Returned-bind _ (item "id" raw) _ λ id.
      Returned-bind _ (item "dest" raw) _ λ dest. Returned-bind _ (item "port" raw) _ λ raw_port.
        Returned-bind _ (int_of raw_port) _ λ port.
          Returned-bind _ (item "proto" raw) _
            λ raw_proto. Returned-bind _ (int_of raw_proto) _ λ proto. refl

  translate_kind-type :
      Returned (HasType wire_type) (translate_kind wire_type container dossier raw)
  unfolding translate_kind bare_event
  translate_kind-type = elim (Bool-cases (wire_type == "connection_blocked")) [
    | inl blocked ↦ rw blocked translate_blocked-type
    | inr other ↦ rw other (elim (Bool-cases (wire_type == "container_exited")) [
      | inl exited ↦ rw exited refl
      | inr plain ↦ rw plain refl
    ])
  ]

pub translate-type :
    (wire_type : String) (raw : Fields)
    → Returned (HasType wire_type) (translate_reader_event wire_type raw)
unfolding translate_reader_event
translate-type wire_type raw =
    Returned-bind _ (item "container" raw) _ λ c. translate_kind-type wire_type _ _ raw
