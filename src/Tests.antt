-- ===== src/Tests.antt =====
-- Runs of the model on concrete inputs, and the theorems at such inputs.
mod Verdicts
mod Runs
mod Texts
mod Construction
mod Helper
mod Operator
mod Popups
mod Sockets
mod Desktop
mod Service
mod Desk
mod Wired
mod Muting
use terok_clearance.Common.{
  ℕ, String, Bool, true, false, Option, none, some, List, [], ◌∷◌, ◌≡◌, refl, string_eq, ap, ◌∙◌,
  put, get, contains, Result, ok,
}
use terok_clearance.Common.Int.{ℤ, pos}
use terok_clearance.Hub.Payload.{
  Json, int, text, Fields, end, field, get_field, item, int_of, str_of,
}
use terok_clearance.Hub.State.{Hub}
use terok_clearance.Domain.Events.{ClearanceEvent, bare_event, verdict_actions}
use terok_clearance.Wire.Sanitize.{sanitize, clean, clean_char, is_printable}
use terok_clearance.Hub.Translate.{coerce_dossier, translate_reader_event, text_or_empty}
use terok_clearance.Hub.Relay.{admit, admitted, relay_reader_event, fan_out, update_live_verdicts}
use terok_clearance.Hub.Subscription.{subscribe}
use terok_clearance.Hub.Verdict.{InFlight, flight, begin_verdict}
use terok_clearance.Hub.Verdict.Begin.{begin_bound}
use terok_clearance.Hub.Invariant.{IsValid}
use terok_clearance.Hub.Construct.{blank}
use terok_clearance.Hub.System.{System, Action, relay, join, begin, run, step, started}
use terok_clearance.Hub.Invariant.{IsFresh}
use terok_clearance.Hub.System.Valid.{reachable-IsValid}

abbrev pub c1 : String
c1 = "0123456789ab"

-- A hub for every container, with a TTL of five minutes.
abbrev pub idle : Hub
idle = blank (some 300) none []

abbrev pub own_hub : Hub
own_hub = blank none (some c1) ((c1, c1) ∷ ("alice", c1) ∷ [])

pub idle-IsFresh : IsFresh idle
idle-IsFresh = record { subscribers = refl; live_verdicts = refl; live_verdicts_ts = refl }

pub own_hub-IsFresh : IsFresh own_hub
own_hub-IsFresh = record { subscribers = refl; live_verdicts = refl; live_verdicts_ts = refl }

-- A reader's report of a blocked connection.
abbrev pub pending : Fields
pending = field "type" (text "pending") (
    field "container" (text c1) (
      field "id" (text "r1") (
        field "dest" (text "192.0.2.7")
          (field "port" (int (pos 443)) (field "proto" (int (pos 6)) end)))))

abbrev pub exited : Fields
exited = field "type" (text "container_exited") (field "container" (text c1) end)

-- A client joins, then a connection is blocked.
abbrev pub blocked : List Action
blocked = join ∷ relay 5 pending ∷ []

abbrev pub prompted : Hub
prompted = (run blocked (started idle)).hub

pub prompted-IsValid : IsValid prompted
prompted-IsValid = reachable-IsValid blocked idle idle-IsFresh

abbrev pub allowing : InFlight
allowing = flight c1 "r1" "192.0.2.7" "allow" (c1, "192.0.2.7") (some 5)

pub prompted_bound : get "r1" prompted.live_verdicts ≡ some (c1, "192.0.2.7")
unfolding run step subscribe relay_reader_event translate_reader_event update_live_verdicts fan_out
    put get get_field item int_of bare_event contains sanitize str_of clean clean_char is_printable
    text_or_empty
prompted_bound = refl

pub prompted_time : get "r1" prompted.live_verdicts_ts ≡ some 5
unfolding run step subscribe relay_reader_event translate_reader_event update_live_verdicts fan_out
    put get get_field item int_of bare_event contains sanitize str_of clean clean_char is_printable
    text_or_empty
prompted_time = refl

pub known_action : contains "allow" verdict_actions ≡ true
unfolding contains
known_action = refl

pub allowing_begun : (begin_verdict c1 "r1" "192.0.2.7" "allow" prompted).1 ≡ ok allowing
unfolding begin_verdict
allowing_begun =
    ap (λ r. r.1) (begin_bound prompted c1 "r1" "192.0.2.7" "allow" known_action prompted_bound)
    ∙ ap (λ t. ok (flight c1 "r1" "192.0.2.7" "allow" (c1, "192.0.2.7") t)) prompted_time

-- The event that the hub makes of the reader's report.
abbrev pub asked : ClearanceEvent
asked = record {
  type = "connection_blocked";
  container = c1;
  request_id = "r1";
  dest = "192.0.2.7";
  port = pos 443;
  proto = pos 6;
  domain = "";
  action = "";
  ok = false;
  reason = "";
  dossier = [];
}

pub asked_admitted : admit idle pending ≡ admitted asked
unfolding admit translate_reader_event get_field item int_of bare_event contains sanitize str_of
    clean clean_char is_printable text_or_empty coerce_dossier
asked_admitted = refl
