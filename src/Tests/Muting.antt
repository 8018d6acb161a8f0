-- ===== src/Tests/Muting.antt =====
-- An operator's mute of a container, from its socket to its hub, at concrete inputs.
use terok_clearance.Common.{
  String, true, false, none, some, [], ◌∷◌, Dict, ◌≡◌, refl, string_eq, get, contains, ok, All,
  Result,
}
use terok_clearance.Common.Int.{pos}
use terok_clearance.Domain.Events.{bare_event}
use terok_clearance.Wire.Sanitize.{sanitize, clean, clean_char, is_printable}
use terok_clearance.Wire.Interface.{set_mute_call}
use terok_clearance.Wire.Paths.Rendered.{IsName, has_slash}
use terok_clearance.Hub.Payload.{text, get_field, item, int_of, str_of}
use terok_clearance.Hub.Translate.{coerce_dossier, translate_reader_event, text_or_empty}
use terok_clearance.Hub.Verdict.{InFlight, Answer}
use terok_clearance.Verdict.Client.{CallError}
use terok_clearance.Hub.Serve.{hub_interface}
use terok_clearance.Client.Connection.{new_client}
use terok_clearance.Client.Pending.{new_subscriber}
use terok_clearance.Client.Sockets.{Child, MultiSocketSubscriber}
use terok_clearance.Client.Sockets.Addressed.{at_sockets}
use terok_clearance.Client.Sockets.Muting.{IsMutedAs, set_mute-IsMutedAs}
use terok_clearance.Tests.{c1, asked, own_hub, pending}

abbrev connected : Child
connected = record {
  subscriber = new_subscriber none;
  client = record new_client { rpc_transport = some 2; rpc_proxy = some 2 };
}

abbrev children : Dict String Child
children = ("ba9876543210", record connected { client = new_client }) ∷ (c1, connected) ∷ []

children-All : All (λ kv. IsName kv.0) children
unfolding has_slash
children-All = (
  record { whole = refl; filled = refl; no_dot = refl },
  (record { whole = refl; filled = refl; no_dot = refl }, tt),
)

held : get c1 children ≡ some connected
unfolding get
held = refl

own : get c1 own_hub.mute_keys ≡ some c1
unfolding get
own = refl

typed : get_field "type" pending ≡ some (text "pending")
unfolding get_field
typed = refl

translated : translate_reader_event "connection_blocked" pending ≡ ok asked
unfolding translate_reader_event get_field item int_of bare_event contains sanitize str_of clean
    clean_char is_printable text_or_empty coerce_dossier
translated = refl

abbrev operator : MultiSocketSubscriber
operator = record {
  socket_glob = "/run/user/1000/terok/clearance/*/hub.sock";
  enabled_categories = none;
  rescan_interval_ms = pos 2000;
  subscribers = at_sockets none 1000 children;
  rescan_task = true;
  stopping = false;
  made = 2;
  released = [];
}

abbrev helper : InFlight → Result CallError Answer
helper v = ok (record { ok = true; stderr = "" })

set_mute-IsMutedAs_example :
    IsMutedAs helper operator c1 true pending asked
      (set_mute_call (hub_interface helper) c1 true own_hub)
set_mute-IsMutedAs_example =
    set_mute-IsMutedAs helper operator c1 true none 1000 children own_hub pending children-All refl
      held refl refl own typed translated
