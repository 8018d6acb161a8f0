-- ===== src/Hub/Relay.antt =====
-- hub/server.py: one reader event on its way to the bindings and to every subscriber.
pub mod Bindings
pub mod Queue
pub mod Admitted
use terok_clearance.Common.{
  ℕ, String, Bool, true, false, ◌&&◌, ◌||◌, Option, none, some, List, [], ◌∷◌, ◌++◌, map, Dict,
  Result, ok, raise, PyError, key_error, value_error, type_error, overflow_error, ◌==◌, string_eq,
  if◌then◌else◌, leb, length, drop, contains, discard, put, remove_all, keys_where, truthy, or_else,
}
use terok_clearance.Domain.Events.{ClearanceEvent}
use terok_clearance.Hub.Payload.{
  Json, null, bool, int, float, text, array, object, Fields, get_field,
}
use terok_clearance.Hub.Translate.{wire_event_types, translate_reader_event}
use terok_clearance.Hub.State.{Hub, Subscriber, Binding, subscriber_queue_depth}

-- `queue.full()`
abbrev pub full : List ClearanceEvent → Bool
full queue = leb subscriber_queue_depth (length queue)

-- The body of the fan-out loop: the oldest event makes room for the new one.
unfoldable pub push : ClearanceEvent → List ClearanceEvent → List ClearanceEvent
push event queue = (if full queue then drop 1 queue else queue) ++ (event ∷ [])

abbrev pub receive : ClearanceEvent → Subscriber → Subscriber
receive event s = record s { queue = push event s.queue }

-- `_fan_out`
unfoldable pub fan_out : ClearanceEvent → Hub → Hub
fan_out event hub = record hub { subscribers = map (receive event) hub.subscribers }

-- The value bound to a blocked connection: its domain, else its address.
abbrev pub event_target : ClearanceEvent → String
event_target event = or_else event.domain event.dest

abbrev pub binds : ClearanceEvent → Bool
binds event = event.type == "connection_blocked" && truthy event.request_id

abbrev pub retires : ClearanceEvent → Bool
retires event =
    event.type == "shield_down"
    || event.type == "shield_disengaged"
    || event.type == "container_exited"

abbrev pub is_of : String → Binding → Bool
is_of container b = b.0 == container

-- `_update_live_verdicts`
unfoldable pub update_live_verdicts : ℕ → ClearanceEvent → Hub → Hub
update_live_verdicts now event hub =
    if binds event
    then record hub {
      live_verdicts = put event.request_id (event.container, event_target event) hub.live_verdicts;
      live_verdicts_ts = put event.request_id now hub.live_verdicts_ts;
    }
    else if retires event
    then (let stale = keys_where (is_of event.container) hub.live_verdicts in
        record hub {
          live_verdicts = remove_all stale hub.live_verdicts;
          live_verdicts_ts = remove_all stale hub.live_verdicts_ts;
          muted =
              if event.type == "container_exited"
              then discard event.container hub.muted
              else hub.muted;
        })
    else hub

-- What becomes of a reader event before the hub acts on it.
pub data Admission : Type 0 where
  dropped : Admission
  failed : PyError → Admission
  admitted : ClearanceEvent → Admission

-- The key that a hub for one container stamps on each event.
unfoldable pub stamp : Hub → ClearanceEvent → ClearanceEvent
stamp hub event = elim hub.container [ none ↦ event | some c ↦ record event { container = c } ]

abbrev pub is_muted_prompt : Hub → ClearanceEvent → Bool
is_muted_prompt hub event = event.type == "connection_blocked" && contains event.container hub.muted

unfoldable pub screen : Hub → Result PyError ClearanceEvent → Admission
unfolding stamp
screen hub (raise overflow_error) = failed overflow_error
screen hub (raise _) = dropped
screen hub (ok translated) =
    let event = stamp hub translated in
    if is_muted_prompt hub event then dropped else admitted event

abbrev pub wire_type_of : String → String
wire_type_of raw_type = if raw_type == "pending" then "connection_blocked" else raw_type

-- A type that cannot be hashed fails the test against the frozen set.
unfoldable pub admit_type : Hub → Fields → Json → Admission
unfolding screen
admit_type hub raw (text raw_type) =
    let wire_type = wire_type_of raw_type in
    if wire_type == "connection_blocked" || contains wire_type wire_event_types
    then screen hub (translate_reader_event wire_type raw)
    else dropped
admit_type hub raw (array shown) = failed type_error
admit_type hub raw (object shown fields) = failed type_error
admit_type hub raw _ = dropped

-- The guards of `_relay_reader_event`.
unfoldable pub admit : Hub → Fields → Admission
unfolding admit_type
admit hub raw = elim (get_field "type" raw) [ none ↦ dropped | some t ↦ admit_type hub raw t ]

unfoldable pub perform : ℕ → Admission → Hub → Hub × Option PyError
perform now dropped hub = (hub, none)
perform now (failed e) hub = (hub, some e)
perform now (admitted event) hub = (fan_out event (update_live_verdicts now event hub), none)

-- `_relay_reader_event`: the new state, and the exception that it lets through.
unfoldable pub relay_reader_event : ℕ → Fields → Hub → Hub × Option PyError
unfolding admit perform
relay_reader_event now raw hub = perform now (admit hub raw) hub
