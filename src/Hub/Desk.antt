-- ===== src/Hub/Desk.antt =====
-- hub/server.py: what the hub promises of the requests it asks about, without its dicts and queues. A
-- desk has an entry for each open request, and a ticket for each verdict that waits for shield.
pub mod View
pub mod Steps
pub mod Refined
pub mod Slots
pub mod Once
use terok_clearance.Common.{
  ℕ, zero, suc, ◌-◌, String, Bool, true, false, ◌&&◌, Option, none, some, List, [], ◌∷◌, string_eq,
  ◌==◌, ltb, contains, none_if, if◌then◌else◌,
}
use terok_clearance.Domain.Events.{ClearanceEvent, verdict_actions}
use terok_clearance.Hub.State.{Binding}
use terok_clearance.Hub.Relay.{binds, retires, is_of, event_target}

-- The container and the target of an open request, and when it was opened.
abbrev pub Entry : Type 0
Entry = Binding × ℕ

pub record Ticket : Type 0 where
  pub request_id : String
  pub entry : Entry
  pub action : String

pub record Desk : Type 0 where
  pub table : String → Option Entry
  pub tickets : List Ticket

pub data Command : Type 0 where
  ignore : Command
  -- an event is sent to the subscribers at a time
  hear : ℕ → ClearanceEvent → Command
  -- entries older than the second number go at the time of the first
  expire : ℕ → ℕ → Command
  -- container, request id, target and action of a verdict
  claim : String → String → String → String → Command
  -- whether shield applied the verdict of the ticket at a place
  settle : ℕ → Bool → Command
  -- the ticket at a place is lost
  forget : ℕ → Command
  close : Command

abbrev pub set_entry : String → Option Entry → (String → Option Entry) → String → Option Entry
set_entry k e table j = if k == j then e else table j

abbrev pub heard : ℕ → ClearanceEvent → String → Option Entry → Option Entry
heard now event k before =
    if binds event
    then (if event.request_id == k
        then some ((event.container, event_target event), now)
        else before)
    else if retires event
    then none_if (λ e. is_of event.container e.0) before
    else before

-- The time of a request whose entry is exactly of a container and a target.
abbrev pub time_of : String → String → Option Entry → Option ℕ
time_of c d none = none
time_of c d (some ((c', d'), t)) = if c' == c && d' == d then some t else none

abbrev pub claimed : String → String → String → String → Option ℕ → Desk → Desk
claimed c k d a none desk = desk
claimed c k d a (some t) desk = record {
  table = set_entry k none desk.table;
  tickets = record { request_id = k; entry = ((c, d), t); action = a } ∷ desk.tickets;
}

unfoldable pub take_at {ℓ} : {A : Type ℓ} → ℕ → List A → Option (A × List A)
take_at i [] = none
take_at zero (v ∷ vs) = some (v, vs)
take_at (suc i) (v ∷ vs) = elim (take_at i vs) [ none ↦ none | some (w, ws) ↦ some (w, v ∷ ws) ]

-- A verdict that shield refused opens its request again.
abbrev pub settled : Bool → Option (Ticket × List Ticket) → Desk → Desk
settled applied none desk = desk
settled applied (some (t, others)) desk = record {
  table = if applied then desk.table else set_entry t.request_id (some t.entry) desk.table;
  tickets = others;
}

abbrev pub forgotten : Option (Ticket × List Ticket) → Desk → Desk
forgotten none desk = desk
forgotten (some (t, others)) desk = record desk { tickets = others }

unfoldable pub obey : Command → Desk → Desk
unfolding take_at
obey ignore desk = desk
obey (hear now event) desk = record desk { table = λ k. heard now event k (desk.table k) }
obey (expire now ttl) desk = record desk {
  table = λ k. none_if (λ e. ltb ttl (now - e.1)) (desk.table k);
}
obey (claim c k d a) desk =
    if contains a verdict_actions then claimed c k d a (time_of c d (desk.table k)) desk else desk
obey (settle i applied) desk = settled applied (take_at i desk.tickets) desk
obey (forget i) desk = forgotten (take_at i desk.tickets) desk
obey close desk = record desk { table = λ k. none }

unfoldable pub obey_all : List Command → Desk → Desk
unfolding obey
obey_all [] desk = desk
obey_all (c ∷ cs) desk = obey_all cs (obey c desk)

-- Nothing is open and nothing waits.
abbrev pub blank_desk : Desk
blank_desk = record { table = λ k. none; tickets = [] }
