-- ===== src/Tests/Desk.antt =====
-- The hub as a desk, on a schedule in which a verdict is called twice, refused, and given again.
use terok_clearance.Common.{
  true, false, List, [], ◌∷◌, ◌≡◌, refl, string_eq, put, get, remove, contains,
}
use terok_clearance.Domain.Events.{bare_event}
use terok_clearance.Wire.Sanitize.{sanitize, clean, clean_char, is_printable}
use terok_clearance.Hub.Payload.{get_field, item, int_of, str_of}
use terok_clearance.Hub.Translate.{translate_reader_event, text_or_empty, coerce_dossier}
use terok_clearance.Hub.Relay.{admit, relay_reader_event, fan_out, update_live_verdicts}
use terok_clearance.Hub.Verdict.{
  Answer, begin_verdict, begin_taken, take_binding, check_tuple, settle, restore, outcome_event,
  finish_verdict,
}
use terok_clearance.Hub.System.{
  Action, relay, begin, finish, run, step, pick, started, settle_picked, waiting,
}
use terok_clearance.Hub.Desk.{take_at, obey_all, blank_desk}
use terok_clearance.Hub.Desk.View.{view, commands}
use terok_clearance.Hub.Desk.Refined.{refined}
use terok_clearance.Hub.Desk.Once.{applied}
use terok_clearance.Tests.{c1, idle, idle-IsFresh, pending}

abbrev refusal : Answer
refusal = record { ok = false; stderr = "busy" }

abbrev success : Answer
success = record { ok = true; stderr = "" }

abbrev press : Action
press = begin c1 "r1" "192.0.2.7" "allow"

-- The second press finds nothing to claim; after the refusal the third does.
abbrev retried : List Action
retried = relay 5 pending ∷ press ∷ press ∷ finish 0 refusal ∷ press ∷ finish 0 success ∷ press ∷ []

refined_example :
    view (run retried (started idle)) ≡ obey_all (commands retried (started idle)) blank_desk
refined_example = refined retried idle idle-IsFresh

granted_once : applied "r1" retried (started idle) ≡ 1
unfolding applied step admit translate_reader_event get_field item int_of bare_event contains
    sanitize str_of clean clean_char is_printable text_or_empty coerce_dossier relay_reader_event
    fan_out update_live_verdicts put get remove begin_verdict begin_taken take_binding check_tuple
    settle restore outcome_event finish_verdict pick take_at settle_picked waiting
granted_once = refl
