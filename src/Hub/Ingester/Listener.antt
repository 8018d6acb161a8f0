-- ===== src/Hub/Ingester/Listener.antt =====
-- hub/ingester.py: `start`, `stop` and the check of a peer. A handler's task is a number.
use terok_clearance.Common.{
  ℕ, Bool, true, false, Option, List, [], ◌∷◌, nat_eq, ◌==◌, add, discard, Result, ok, raise,
}
use terok_clearance.Wire.Socket.{BindFailure, Dir, Process, bind_hardened, unlink}

-- `_server` and `_clients`. Of each task whether it was cancelled is a record for its reader.
pub record EventIngester : Type 0 where
  pub server : Bool
  pub clients : List ℕ
  pub cancelled : List ℕ

-- `__init__`
abbrev pub new_ingester : EventIngester
new_ingester = record { server = false; clients = []; cancelled = [] }

abbrev pub listening :
    Process × Result BindFailure (Unit {0})
    → EventIngester
    → EventIngester × Process × Result BindFailure (Unit {0})
listening (p, ok done) i = (record i { server = true }, p, ok tt)
listening (p, raise e) i = (i, p, raise e)

-- `start`
unfoldable pub start_ingester :
    ℕ
    → Result BindFailure Dir
    → Result BindFailure (Unit {0})
    → Result BindFailure (Unit {0})
    → Option Bool
    → Process
    → EventIngester
    → EventIngester × Process × Result BindFailure (Unit {0})
unfolding bind_hardened
start_ingester uid stat unlinked factory left p i =
    listening (bind_hardened uid stat unlinked (ok tt) factory left p) i

-- The first lines of `_handle_client`, and its `finally`.
unfoldable pub accept : ℕ → EventIngester → EventIngester
accept task i = record i { clients = add task i.clients }

unfoldable pub release_client : ℕ → EventIngester → EventIngester
release_client task i = record i { clients = discard task i.clients }

abbrev pub cancel_all : List ℕ → EventIngester → EventIngester
cancel_all [] i = i
cancel_all (task ∷ tasks) i = cancel_all tasks (record i { cancelled = task ∷ i.cancelled })

-- Each task in the snapshot is awaited, and its `finally` runs.
unfoldable pub await_all : List ℕ → EventIngester → EventIngester
unfolding release_client
await_all [] i = i
await_all (task ∷ tasks) i = await_all tasks (release_client task i)

-- `stop`: the ingester, and the process with the socket's path free. A handler that begins only
-- after the snapshot is left out.
unfoldable pub stop_ingester : EventIngester → Process → EventIngester × Process
unfolding await_all
stop_ingester i p =
    let done = await_all i.clients (cancel_all i.clients i) in
    (record done { server = false }, unlink p)

-- The credentials of a connection: it has no socket, or `getsockopt` raises, or the user of the peer.
pub data Peer : Type 0 where
  no_socket : Peer
  unreadable : Peer
  credentials : ℕ → Peer

-- `_peer_uid_matches_ours`
unfoldable pub peer_uid_matches : ℕ → Peer → Bool
peer_uid_matches uid no_socket = false
peer_uid_matches uid unreadable = false
peer_uid_matches uid (credentials peer) = peer == uid
