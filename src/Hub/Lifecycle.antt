-- ===== src/Hub/Lifecycle.antt =====
-- hub/server.py: `start` and `stop` of the hub. Whether each socket can be bound is an argument.
pub mod Running
use terok_clearance.Common.{ℕ, Bool, true, false, Option, none, some, [], Result, ok, raise}
use terok_clearance.Hub.State.{Hub}

-- The exception that leaves `start`: that of the ingester, or that of the varlink server.
pub data StartFailure : Type 0 where
  ingester_failed server_failed : StartFailure

-- The background task that expires bindings runs only where a TTL is set.
abbrev pub expires : Option ℕ → Bool
expires none = false
expires (some ttl) = true

unfoldable pub start_server : Bool → Hub → Hub × Result StartFailure (Unit {0})
start_server false hub = (record hub { ingester = false }, raise server_failed)
start_server true hub =
    (record hub { varlink_server = true; cleanup_task = expires hub.verdict_ttl }, ok tt)

-- `start`, with whether the ingester and the server can be bound.
unfoldable pub start : Bool → Bool → Hub → Hub × Result StartFailure (Unit {0})
unfolding start_server
start false server hub = (record hub { ingester = true }, raise ingester_failed)
start true server hub = start_server server (record hub { ingester = true })

-- `stop`
unfoldable pub stop : Hub → Hub
stop hub = record hub {
  varlink_server = false;
  ingester = false;
  cleanup_task = false;
  subscribers = [];
  live_verdicts = [];
  live_verdicts_ts = [];
}
