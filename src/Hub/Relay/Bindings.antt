-- ===== src/Hub/Relay/Bindings.antt =====
-- hub/server.py: what a relayed event does to the bindings of pending verdicts.
use terok_clearance.Common.{
  ℕ, String, Option, some, ◌≡◌, refl, string_eq, inl, inr, Bool-cases, ◌==◌, get, get-put,
  get-purge, none_if, if◌then◌else◌,
}
use terok_clearance.Domain.Events.{ClearanceEvent}
use terok_clearance.Hub.State.{Hub, Binding}
use terok_clearance.Hub.Invariant.{IsValid}
use terok_clearance.Hub.Payload.{Fields}
use terok_clearance.Hub.Relay.{
  Admission, dropped, failed, admitted, admit, perform, fan_out, relay_reader_event,
  update_live_verdicts, event_target, binds, retires, is_of,
}

-- The binding of a request id after an event.
abbrev pub bound_after : ClearanceEvent → String → Option Binding → Option Binding
bound_after event k before =
    if binds event
    then (if event.request_id == k then some (event.container, event_target event) else before)
    else if retires event
    then none_if (is_of event.container) before
    else before

-- A prompt with a request id binds that id to its container and target; a container that lost its
-- shield or exited loses its bindings; any other binding stays.
pub live-update :
    (now : ℕ) (event : ClearanceEvent) (hub : Hub) (k : String)
    → IsValid hub
    → get k (update_live_verdicts now event hub).live_verdicts
      ≡ bound_after event k (get k hub.live_verdicts)
unfolding update_live_verdicts
live-update now event hub k valid = elim (Bool-cases (binds event)) [
  | inl prompt ↦ rw prompt (get-put event.request_id k _ hub.live_verdicts)
  | inr other ↦ rw other (elim (Bool-cases (retires event)) [
    | inl ends ↦ rw ends (get-purge (is_of event.container) k hub.live_verdicts valid.live_dict)
    | inr stays ↦ rw stays
  ])
]

-- The binding of a request id after a reader event, by what became of the event.
abbrev pub bound_by : Admission → String → Option Binding → Option Binding
bound_by dropped k before = before
bound_by (failed e) k before = before
bound_by (admitted event) k before = bound_after event k before

pub relay_bindings :
    (now : ℕ) (raw : Fields) (hub : Hub) (k : String)
    → IsValid hub
    → get k (relay_reader_event now raw hub).0.live_verdicts
      ≡ bound_by (admit hub raw) k (get k hub.live_verdicts)
unfolding relay_reader_event
relay_bindings now raw hub k valid = go (admit hub raw)
  where
    go :
        (a : Admission)
        → get k (perform now a hub).0.live_verdicts ≡ bound_by a k (get k hub.live_verdicts)
    go dropped = unfold perform in refl
    go (failed e) = unfold perform in refl
    go (admitted e) = unfold perform fan_out in live-update now e hub k valid
