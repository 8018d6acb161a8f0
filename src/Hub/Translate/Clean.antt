-- ===== src/Hub/Translate/Clean.antt =====
-- hub/server.py: `_translate_reader_event` and the text rule of the wire.
use terok_clearance.Common.{
  ℕ, ◌≤◌, String, Option, some, ok, ◌≡◌, arith, string_eq, ◌==◌, Bool-cases, inl, inr, All,
  Returned, Returned-bind, Returned-ok,
}
use terok_clearance.Domain.Events.{ClearanceEvent, Dossier, bare_event}
use terok_clearance.Wire.Sanitize.{default_max_len}
use terok_clearance.Wire.Sanitize.Output.{IsWire, sanitize-IsWire, sanitize_mapping-IsWire}
use terok_clearance.Hub.Payload.{Json, object, Fields, get_field, item, str_of, int_of}
use terok_clearance.Hub.Translate.{
  wire_text, coerce_dossier, text_or_empty, translate_blocked, translate_kind,
  translate_reader_event,
}

-- The text fields of an event but for its type, and each value of its dossier, are printable ASCII of at
-- most 256 characters, or of 512 for the reason. The keys of a dossier are left out.
pub record IsClean (e : ClearanceEvent) : Type 0 where
  pub container : IsWire default_max_len e.container
  pub request_id : IsWire default_max_len e.request_id
  pub dest : IsWire default_max_len e.dest
  pub domain : IsWire default_max_len e.domain
  pub action : IsWire default_max_len e.action
  pub reason : IsWire 512 e.reason
  pub dossier : All (λ kv. IsWire default_max_len kv.1) e.dossier

pub empty-IsWire : (n : ℕ) → IsWire n ""
empty-IsWire n = record { printable = tt; short = omega arith }

pub IsWire-mono : (m n : ℕ) (s : String) → m ≤ n → IsWire m s → IsWire n s
IsWire-mono m n s le h = record { printable = h.printable; short = omega (arith, h.short) }

wire_text-IsWire : (s : String) → IsWire default_max_len (wire_text s)
wire_text-IsWire s = sanitize-IsWire default_max_len s

coerce_dossier-IsWire :
    (raw : Option Json) → All (λ kv. IsWire default_max_len kv.1) (coerce_dossier raw)
unfolding coerce_dossier
coerce_dossier-IsWire (some (object shown fields)) = sanitize_mapping-IsWire default_max_len _
coerce_dossier-IsWire _ = tt

module _ (wire_type container : String) (dossier : Dossier) (raw : Fields)
    (named : IsWire default_max_len container)
    (identified : All (λ kv. IsWire default_max_len kv.1) dossier) where
  translate_blocked-IsClean : Returned IsClean (translate_blocked wire_type container dossier raw)
  unfolding translate_blocked bare_event
  translate_blocked-IsClean = Returned-bind IsClean (item "id" raw) _ λ id.
      Returned-bind IsClean (item "dest" raw) _ λ dest.
        Returned-bind IsClean (item "port" raw) _ λ raw_port.
          Returned-bind IsClean (int_of raw_port) _ λ port.
            Returned-bind IsClean (item "proto" raw) _ λ raw_proto.
              Returned-bind IsClean (int_of raw_proto) _ λ proto. record {
                container = named;
                request_id = wire_text-IsWire (str_of id);
                dest = wire_text-IsWire (str_of dest);
                domain = wire_text-IsWire (text_or_empty "domain" raw);
                action = empty-IsWire 256;
                reason = empty-IsWire 512;
                dossier = identified;
              }

  translate_exited-IsClean : IsClean (record (bare_event wire_type container) {
    reason = wire_text (text_or_empty "reason" raw);
    dossier = dossier;
  })
  unfolding bare_event
  translate_exited-IsClean = record {
    container = named;
    request_id = empty-IsWire 256;
    dest = empty-IsWire 256;
    domain = empty-IsWire 256;
    action = empty-IsWire 256;
    reason = IsWire-mono 256 512 _ (omega arith) (wire_text-IsWire (text_or_empty "reason" raw));
    dossier = identified;
  }

  translate_plain-IsClean : IsClean (record (bare_event wire_type container) { dossier = dossier })
  unfolding bare_event
  translate_plain-IsClean = record {
    container = named;
    request_id = empty-IsWire 256;
    dest = empty-IsWire 256;
    domain = empty-IsWire 256;
    action = empty-IsWire 256;
    reason = empty-IsWire 512;
    dossier = identified;
  }

  translate_kind-IsClean : Returned IsClean (translate_kind wire_type container dossier raw)
  unfolding translate_kind
  translate_kind-IsClean = elim (Bool-cases (wire_type == "connection_blocked")) [
    | inl blocked ↦ rw blocked translate_blocked-IsClean
    | inr other ↦ rw other (elim (Bool-cases (wire_type == "container_exited")) [
      | inl exited ↦ rw exited translate_exited-IsClean
      | inr plain ↦ rw plain translate_plain-IsClean
    ])
  ]

pub translate-IsClean :
    (wire_type : String) (raw : Fields) → Returned IsClean (translate_reader_event wire_type raw)
unfolding translate_reader_event
translate-IsClean wire_type raw = Returned-bind IsClean (item "container" raw) _ λ c.
    translate_kind-IsClean wire_type _ _ raw (wire_text-IsWire (str_of c))
      (coerce_dossier-IsWire (get_field "dossier" raw))

-- Whatever a reader sends, the text fields of an event that comes out of the translation, but for its
-- type, and each value of its dossier are printable ASCII within their caps.
pub translated-IsClean :
    (wire_type : String) (raw : Fields) {event : ClearanceEvent}
    → translate_reader_event wire_type raw ≡ ok event
    → IsClean event
translated-IsClean wire_type raw e = Returned-ok IsClean _ (translate-IsClean wire_type raw) e
