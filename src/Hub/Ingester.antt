-- ===== src/Hub/Ingester.antt =====
-- hub/ingester.py: one connection of a reader. A line stands for what `readline`, `strip` and
-- `json.loads` make of its bytes.
pub mod Lines
pub mod Listener
use terok_clearance.Common.{ℕ, Bool, true, false, Option, none, some, List, [], ◌∷◌}
use terok_clearance.Hub.Payload.{Json, null, bool, int, float, text, array, object, Fields}
use terok_clearance.Hub.State.{Hub}
use terok_clearance.Hub.Relay.{relay_reader_event}

pub data Line : Type 0 where
  -- nothing but white space
  blank : Line
  decoded : Json → Line
  -- `json.loads` raises `JSONDecodeError`
  malformed : Line
  -- `json.loads` raises another `ValueError`: the bytes are no text, or a number has too many digits
  undecodable : Line
  -- `readline` raises `ValueError`: the line is longer than the stream's limit
  overlong : Line

-- The sink gets an object; what it raises is logged and goes no further.
unfoldable pub sink : ℕ → Json → Hub → Hub
sink now (object shown fields) hub = (relay_reader_event now fields hub).0
sink now _ hub = hub

-- `_dispatch`, after the `readline` before it: the hub, or nothing of the rest where an exception ends
-- the connection.
unfoldable pub dispatch : ℕ → Line → Hub → Option Hub
unfolding sink
dispatch now blank hub = some hub
dispatch now (decoded json) hub = some (sink now json hub)
dispatch now malformed hub = some hub
dispatch now undecodable hub = none
dispatch now overlong hub = none

-- The loop of `_handle_client`: lines with the clock reading at which each is handled, to the end of the
-- stream or to an exception.
unfoldable pub read_lines : List (ℕ × Line) → Hub → Hub
unfolding dispatch
read_lines [] hub = hub
read_lines ((now, line) ∷ rest) hub = elim (dispatch now line hub) [
  | none ↦ hub
  | some hub' ↦ read_lines rest hub'
]

-- `_handle_client`, with whether the peer runs as the hub's user.
unfoldable pub handle_client : Bool → List (ℕ × Line) → Hub → Hub
unfolding read_lines
handle_client false lines hub = hub
handle_client true lines hub = read_lines lines hub
