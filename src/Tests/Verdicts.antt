-- ===== src/Tests/Verdicts.antt =====
-- Verdicts on a blocked connection.
use terok_clearance.Common.{
  true, false, none, some, [], ◌≡◌, refl, string_eq, put, get, contains, raise,
}
use terok_clearance.Common.Int.{pos}
use terok_clearance.Domain.Events.{ClearanceEvent, verdict_actions}
use terok_clearance.Wire.Errors.{verdict_tuple_mismatch}
use terok_clearance.Hub.State.{Hub}
use terok_clearance.Domain.Events.{bare_event}
use terok_clearance.Hub.Payload.{get_field, item, int_of, str_of}
use terok_clearance.Wire.Sanitize.{sanitize, clean, clean_char, is_printable}
use terok_clearance.Hub.Translate.{text_or_empty, coerce_dossier}
use terok_clearance.Hub.Relay.{admit, admitted, relay_reader_event, fan_out, update_live_verdicts}
use terok_clearance.Hub.System.{run, step}
use terok_clearance.Hub.Subscription.{subscribe}
use terok_clearance.Hub.Translate.{translate_reader_event}
use terok_clearance.Hub.Verdict.{Answer, begin_verdict, finish_verdict}
use terok_clearance.Hub.Verdict.Begin.{begin_refused, SameBindings}
use terok_clearance.Hub.Verdict.Outcome.{refused_retry}
use terok_clearance.Hub.Verdict.Race.{refusal_revives}
use terok_clearance.Tests.{
  c1, prompted, allowing, prompted_bound, allowing_begun, prompted-IsValid, exited,
}

abbrev waiting : Hub
waiting = (begin_verdict c1 "r1" "192.0.2.7" "allow" prompted).0

abbrev refusal : Answer
refusal = record { ok = false; stderr = "podman: no such container" }

abbrev success : Answer
success = record { ok = true; stderr = "" }

known_denial : contains "deny" verdict_actions ≡ true
unfolding contains
known_denial = refl

-- Another target than the one that was asked about.
mismatch :
    (begin_verdict c1 "r1" "203.0.113.9" "allow" prompted).1
    ≡ raise (verdict_tuple_mismatch c1 "192.0.2.7" c1 "203.0.113.9")
unfolding begin_verdict contains
mismatch = rw prompted_bound

begin_refused_example :
    SameBindings (begin_verdict c1 "r1" "203.0.113.9" "allow" prompted).0 prompted
begin_refused_example = begin_refused c1 "r1" "203.0.113.9" "allow" prompted-IsValid mismatch

refused_retry_example : SameBindings (finish_verdict allowing refusal waiting).0 prompted
refused_retry_example =
    refused_retry c1 "r1" "192.0.2.7" "allow" prompted-IsValid allowing_begun refusal refl

abbrev exit_event : ClearanceEvent
exit_event = record {
  type = "container_exited";
  container = c1;
  request_id = "";
  dest = "";
  port = pos 0;
  proto = pos 0;
  domain = "";
  action = "";
  ok = false;
  reason = "";
  dossier = [];
}

exit_admitted : (hub : Hub) → hub.container ≡ none → admit hub exited ≡ admitted exit_event
unfolding admit translate_reader_event get_field contains item bare_event sanitize str_of clean
    clean_char is_printable text_or_empty coerce_dossier
exit_admitted hub every = rw every

waiting_container : waiting.container ≡ none
unfolding run step subscribe relay_reader_event admit begin_verdict contains get get_field
    translate_reader_event item int_of bare_event fan_out update_live_verdicts sanitize str_of clean
    put clean_char is_printable text_or_empty
waiting_container = refl

refusal_revives_example :
    (get "r1" (relay_reader_event 9 exited waiting).0.live_verdicts ≡ none)
    × (get "r1"
          (finish_verdict allowing refusal (relay_reader_event 9 exited waiting).0).0.live_verdicts
        ≡ some (c1, "192.0.2.7"))
refusal_revives_example =
    refusal_revives c1 "r1" "192.0.2.7" "allow" prompted-IsValid allowing_begun 9 exited exit_event
      refusal (exit_admitted waiting waiting_container) refl refl
