-- ===== src/Hub/System.antt =====
-- The hub among its callers: any order of reader events, expiries, subscriptions, mutes, verdicts,
-- answers of the helper, starts and stops. A verdict begins and finishes in two actions, so others may run
-- while it waits. `log` is a record for the proofs: the events fanned out, the newest first.
pub mod Operations
pub mod Knowing
pub mod Soundness
pub mod Fresh
pub mod Valid
pub mod Authorisation
pub mod Confinement
pub mod WireText
pub mod Queues
pub mod Waiting
pub mod Kinds
use terok_clearance.Common.{
  ℕ, zero, suc, String, Bool, Option, none, some, List, [], ◌∷◌, ◌++◌, Result, ok, raise, PyError,
}
use terok_clearance.Domain.Events.{ClearanceEvent}
use terok_clearance.Wire.Errors.{ClearanceError}
use terok_clearance.Hub.Payload.{Fields}
use terok_clearance.Hub.State.{Hub}
use terok_clearance.Hub.Relay.{Admission, dropped, failed, admitted, admit, relay_reader_event}
use terok_clearance.Hub.Cleanup.{cleanup_stale_verdicts}
use terok_clearance.Hub.Mute.{set_mute}
use terok_clearance.Hub.Verdict.{InFlight, Answer, begin_verdict, outcome_event, finish_verdict}
use terok_clearance.Hub.Lifecycle.{start, stop}
use terok_clearance.Hub.Subscription.{subscribe, unsubscribe, deliver}

pub record System : Type 0 where
  pub hub : Hub
  pub in_flight : List InFlight
  pub log : List ClearanceEvent

pub data Action : Type 0 where
  relay : ℕ → Fields → Action
  cleanup : ℕ → Action
  join : Action
  leave : ℕ → Action
  read : ℕ → Action
  mute : String → Bool → Action
  -- container, request id, dest and action of a `Verdict` call
  begin : String → String → String → String → Action
  -- the answer to the verdict at a place among those in flight
  finish : ℕ → Answer → Action
  -- the call at a place among those in flight ends by an exception, or is cancelled
  abandon : ℕ → Action
  -- with whether the ingester and the server can be bound
  bring_up : Bool → Bool → Action
  shut_down : Action

unfoldable pub record_admission : Admission → List ClearanceEvent → List ClearanceEvent
record_admission dropped log = log
record_admission (failed e) log = log
record_admission (admitted event) log = event ∷ log

unfoldable pub waiting : List InFlight → Result ClearanceError InFlight → List InFlight
waiting flights (ok v) = v ∷ flights
waiting flights (raise e) = flights

-- The verdict at a place, and the others.
unfoldable pub pick : ℕ → List InFlight → Option (InFlight × List InFlight)
pick i [] = none
pick zero (v ∷ vs) = some (v, vs)
pick (suc i) (v ∷ vs) = elim (pick i vs) [ none ↦ none | some (w, ws) ↦ some (w, v ∷ ws) ]

unfoldable pub settle_picked : Answer → Option (InFlight × List InFlight) → System → System
settle_picked answer none s = s
settle_picked answer (some (v, others)) s = record {
  hub = (finish_verdict v answer s.hub).0;
  in_flight = others;
  log = outcome_event v answer ∷ s.log;
}

unfoldable pub abandon_picked : Option (InFlight × List InFlight) → System → System
abandon_picked none s = s
abandon_picked (some (v, others)) s = record s { in_flight = others }

unfoldable pub step : Action → System → System
unfolding settle_picked abandon_picked
step (relay now raw) s = record s {
  hub = (relay_reader_event now raw s.hub).0;
  log = record_admission (admit s.hub raw) s.log;
}
step (cleanup now) s = record s { hub = (cleanup_stale_verdicts now s.hub).0 }
step join s = record s { hub = (subscribe s.hub).0 }
step (leave key) s = record s { hub = unsubscribe key s.hub }
step (read key) s = record s { hub = (deliver key s.hub).0 }
step (mute c m) s = record s { hub = (set_mute c m s.hub).0 }
step (begin c k d a) s = record s {
  hub = (begin_verdict c k d a s.hub).0;
  in_flight = waiting s.in_flight (begin_verdict c k d a s.hub).1;
}
step (finish i answer) s = settle_picked answer (pick i s.in_flight) s
step (abandon i) s = abandon_picked (pick i s.in_flight) s
step (bring_up i v) s = record s { hub = (start i v s.hub).0 }
step shut_down s = record s { hub = stop s.hub }

unfoldable pub run : List Action → System → System
run [] s = s
run (a ∷ rest) s = run rest (step a s)

-- A hub as its constructor leaves it, with nothing in flight.
abbrev pub started : Hub → System
started hub = record { hub = hub; in_flight = []; log = [] }
