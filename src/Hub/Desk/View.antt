-- ===== src/Hub/Desk/View.antt =====
-- hub/server.py: the desk that a hub and its verdicts in flight make up, and the command that each
-- action amounts to. The order of the dicts is forgotten.
use terok_clearance.Common.{ℕ, String, Option, none, some, List, [], ◌∷◌, map, string_eq, get}
use terok_clearance.Hub.State.{Hub, Binding}
use terok_clearance.Hub.Relay.{Admission, dropped, failed, admitted, admit}
use terok_clearance.Hub.Verdict.{InFlight}
use terok_clearance.Hub.System.{
  System, Action, relay, cleanup, join, leave, read, mute, begin, finish, abandon, bring_up,
  shut_down, step,
}
use terok_clearance.Hub.Desk.{
  Entry, Ticket, Desk, Command, ignore, hear, expire, claim, settle, forget, close,
}

abbrev pub both : Option Binding → Option ℕ → Option Entry
both (some b) (some t) = some (b, t)
both (some b) none = none
both none t = none

abbrev pub entry_of : String → Hub → Option Entry
entry_of k hub = both (get k hub.live_verdicts) (get k hub.live_verdicts_ts)

-- A verdict in flight always has a time.
abbrev pub time_or_zero : Option ℕ → ℕ
time_or_zero none = 0
time_or_zero (some t) = t

abbrev pub ticket_of : InFlight → Ticket
ticket_of v = record {
  request_id = v.request_id;
  entry = (v.live, time_or_zero v.ts);
  action = v.action;
}

abbrev pub view : System → Desk
view s = record { table = λ k. entry_of k s.hub; tickets = map ticket_of s.in_flight }

abbrev pub hearing : ℕ → Admission → Command
hearing now dropped = ignore
hearing now (failed e) = ignore
hearing now (admitted event) = hear now event

abbrev pub expiring : ℕ → Option ℕ → Command
expiring now none = ignore
expiring now (some ttl) = expire now ttl

-- Only a reader's event and the clean-up look at more of the hub than the desk shows: its mutes, its
-- container and its TTL.
abbrev pub command : Action → System → Command
command (relay now raw) s = hearing now (admit s.hub raw)
command (cleanup now) s = expiring now s.hub.verdict_ttl
command join s = ignore
command (leave key) s = ignore
command (read key) s = ignore
command (mute c m) s = ignore
command (begin c k d a) s = claim c k d a
command (finish i answer) s = settle i answer.ok
command (abandon i) s = forget i
command (bring_up i v) s = ignore
command shut_down s = close

unfoldable pub commands : List Action → System → List Command
unfolding step
commands [] s = []
commands (a ∷ rest) s = command a s ∷ commands rest (step a s)
