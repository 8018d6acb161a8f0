-- ===== src/Hub/Translate.antt =====
-- hub/server.py: from a reader's JSON object to the event on the wire.
pub mod Clean
pub mod Kind
use terok_clearance.Common.{
  String, Bool, Option, none, some, List, [], ◌∷◌, Result, ok, raise, PyError, ◌>>=◌, ◌==◌,
  string_eq, if◌then◌else◌,
}
use terok_clearance.Domain.Events.{ClearanceEvent, Dossier, bare_event}
use terok_clearance.Hub.Payload.{
  Json, null, bool, int, float, text, array, object, Fields, get_field, item, str_of, int_of, texts,
}
use terok_clearance.Wire.Sanitize.{sanitize, sanitize_mapping, default_max_len}

-- `_WIRE_EVENT_TYPES`
abbrev pub wire_event_types : List String
wire_event_types =
    "container_started" ∷ "container_exited" ∷ "shield_up" ∷ "shield_down" ∷ "shield_disengaged"
    ∷ []

-- `sanitize(s)` at its default cap
abbrev pub wire_text : String → String
wire_text s = sanitize default_max_len s

unfoldable pub coerce_dossier : Option Json → Dossier
coerce_dossier (some (object shown fields)) = sanitize_mapping default_max_len (texts fields)
coerce_dossier _ = []

-- `str(raw.get(key, ""))`
unfoldable pub text_or_empty : String → Fields → String
text_or_empty key raw = elim (get_field key raw) [ none ↦ "" | some v ↦ str_of v ]

unfoldable pub translate_blocked :
    String → String → Dossier → Fields → Result PyError ClearanceEvent
translate_blocked wire_type container dossier raw = do
  id ← item "id" raw
  dest ← item "dest" raw
  raw_port ← item "port" raw
  port ← int_of raw_port
  raw_proto ← item "proto" raw
  proto ← int_of raw_proto
  ok (record (bare_event wire_type container) {
    request_id = wire_text (str_of id);
    dest = wire_text (str_of dest);
    port = port;
    proto = proto;
    domain = wire_text (text_or_empty "domain" raw);
    dossier = dossier;
  })

-- The three ways that `_translate_reader_event` ends.
unfoldable pub translate_kind : String → String → Dossier → Fields → Result PyError ClearanceEvent
unfolding translate_blocked
translate_kind wire_type container dossier raw =
    if wire_type == "connection_blocked"
    then translate_blocked wire_type container dossier raw
    else if wire_type == "container_exited"
    then ok (record (bare_event wire_type container) {
      reason = wire_text (text_or_empty "reason" raw);
      dossier = dossier;
    })
    else ok (record (bare_event wire_type container) { dossier = dossier })

unfoldable pub translate_reader_event : String → Fields → Result PyError ClearanceEvent
unfolding translate_kind
translate_reader_event wire_type raw = do
  raw_container ← item "container" raw
  let container = wire_text (str_of raw_container)
  let dossier = coerce_dossier (get_field "dossier" raw)
  translate_kind wire_type container dossier raw
