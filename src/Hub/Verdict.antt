-- ===== src/Hub/Verdict.antt =====
-- hub/server.py: `_apply_verdict`, in the two parts that its one `await` divides it into. Between
-- them the hub serves other events and calls.
pub mod Begin
pub mod Outcome
pub mod Race
use terok_clearance.Common.{
  ℕ, String, Bool, true, false, not, ◌&&◌, ◌||◌, Option, none, some, Dict, Result, ok, raise, ◌==◌,
  string_eq, if◌then◌else◌, get, put, remove, contains,
}
use terok_clearance.Domain.Events.{ClearanceEvent, verdict_actions, bare_event}
use terok_clearance.Wire.Errors.{
  ClearanceError, unknown_request, verdict_tuple_mismatch, invalid_action, shield_cli_failed,
}
use terok_clearance.Wire.Sanitize.{sanitize}
use terok_clearance.Hub.State.{Hub, Binding}
use terok_clearance.Hub.Relay.{fan_out}
use terok_clearance.Verdict.Client.{CallError}

-- `_VERDICT_REASON_MAX_LEN`
abbrev pub verdict_reason_max_len : ℕ
verdict_reason_max_len = 512

-- A verdict that waits for the helper: the call's arguments, and what it took from the two maps.
pub record InFlight : Type 0 where
  pub container : String
  pub request_id : String
  pub dest : String
  pub action : String
  pub live : Binding
  pub ts : Option ℕ

abbrev pub flight : String → String → String → String → Binding → Option ℕ → InFlight
flight container request_id dest action live ts = record {
  container = container;
  request_id = request_id;
  dest = dest;
  action = action;
  live = live;
  ts = ts;
}

-- What the helper answers: whether shield succeeded, and its stderr.
pub record Answer : Type 0 where
  pub ok : Bool
  pub stderr : String

abbrev pub put_some : String → Option ℕ → Dict String ℕ → Dict String ℕ
put_some k none d = d
put_some k (some v) d = put k v d

-- Puts the binding back under its request id, with its time.
unfoldable pub restore : InFlight → Hub → Hub
restore v hub = record hub {
  live_verdicts = put v.request_id v.live hub.live_verdicts;
  live_verdicts_ts = put_some v.request_id v.ts hub.live_verdicts_ts;
}

-- The two `pop`s.
unfoldable pub take_binding : String → Hub → Hub
take_binding request_id hub = record hub {
  live_verdicts = remove request_id hub.live_verdicts;
  live_verdicts_ts = remove request_id hub.live_verdicts_ts;
}

-- The check of a taken binding against the call.
unfoldable pub check_tuple : InFlight → Hub → Hub × Result ClearanceError InFlight
unfolding restore
check_tuple v hub =
    if not (v.live.0 == v.container) || not (v.live.1 == v.dest)
    then (restore v hub, raise (verdict_tuple_mismatch v.live.0 v.live.1 v.container v.dest))
    else (hub, ok v)

-- The call, with what the two `pop`s gave.
unfoldable pub begin_taken :
    String
    → String
    → String
    → String
    → Option Binding
    → Option ℕ
    → Hub
    → Hub × Result ClearanceError InFlight
unfolding check_tuple
begin_taken container request_id dest action none ts hub = (hub, raise (unknown_request request_id))
begin_taken container request_id dest action (some live) ts hub =
    check_tuple (flight container request_id dest action live ts) hub

-- Up to the call of the helper.
unfoldable pub begin_verdict :
    String → String → String → String → Hub → Hub × Result ClearanceError InFlight
unfolding take_binding begin_taken
begin_verdict container request_id dest action hub =
    if contains action verdict_actions
    then begin_taken container request_id dest action (get request_id hub.live_verdicts)
        (get request_id hub.live_verdicts_ts) (take_binding request_id hub)
    else (hub, raise (invalid_action action))

-- The `verdict_applied` event.
unfoldable pub outcome_event : InFlight → Answer → ClearanceEvent
outcome_event v answer = record (bare_event "verdict_applied" v.container) {
  request_id = v.request_id;
  action = v.action;
  ok = answer.ok;
  reason = if answer.ok then "" else sanitize verdict_reason_max_len answer.stderr;
}

-- A refused verdict is put back, so that a retry can reach shield.
unfoldable pub settle : InFlight → Answer → Hub → Hub
settle v answer hub = if answer.ok then hub else restore v hub

abbrev pub reply_of : InFlight → Answer → Result ClearanceError Bool
reply_of v answer = if answer.ok then ok true else raise (shield_cli_failed v.action answer.stderr)

-- From the helper's answer on.
unfoldable pub finish_verdict : InFlight → Answer → Hub → Hub × Result ClearanceError Bool
finish_verdict v answer hub =
    (fan_out (outcome_event v answer) (settle v answer hub), reply_of v answer)

-- What a call of `Verdict` can raise: a typed error, or an exception of the call of the helper, after
-- which nothing of the method runs.
pub data VerdictError : Type 0 where
  typed_error : ClearanceError → VerdictError
  escaped_error : CallError → VerdictError

abbrev pub as_verdict_error : Result ClearanceError Bool → Result VerdictError Bool
as_verdict_error (ok b) = ok b
as_verdict_error (raise e) = raise (typed_error e)

unfoldable pub after_helper :
    InFlight → Result CallError Answer → Hub → Hub × Result VerdictError Bool
unfolding finish_verdict
after_helper v (raise e) hub = (hub, raise (escaped_error e))
after_helper v (ok answer) hub =
    let (hub', reply) = finish_verdict v answer hub in (hub', as_verdict_error reply)

unfoldable pub await_helper :
    (InFlight → Result CallError Answer)
    → Hub
    → Result ClearanceError InFlight
    → Hub × Result VerdictError Bool
unfolding after_helper
await_helper helper hub (raise e) = (hub, raise (typed_error e))
await_helper helper hub (ok v) = after_helper v (helper v) hub

-- `_apply_verdict` where nothing else runs during the wait.
unfoldable pub apply_verdict :
    (InFlight → Result CallError Answer)
    → String
    → String
    → String
    → String
    → Hub
    → Hub × Result VerdictError Bool
unfolding begin_verdict await_helper
apply_verdict helper container request_id dest action hub =
    let (hub', begun) = begin_verdict container request_id dest action hub in
    await_helper helper hub' begun
