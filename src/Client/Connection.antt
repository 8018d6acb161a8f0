-- ===== src/Client/Connection.antt =====
-- client/client.py: the two connections of `ClearanceClient`, and its start and stop. A connection is
-- a number; what an attempt to open one comes to is an argument.
pub mod Whole
use terok_clearance.Common.{
  ℕ, String, Bool, true, false, Option, none, some, List, [], ◌∷◌, Result, ok, raise,
}

-- What a connection attempt or a call can raise: a varlink error reply, one of
-- `_DISCONNECT_ERRORS`, or anything else.
pub data Failure : Type 0 where
  error_reply disconnected other : Failure

-- The transports that were closed are kept, the newest first.
pub record ClearanceClient : Type 0 where
  pub sub_transport : Option ℕ
  pub rpc_transport : Option ℕ
  pub sub_proxy : Option ℕ
  pub rpc_proxy : Option ℕ
  pub stream_task : Bool
  pub stopping : Bool
  pub reconnect_poke : Bool
  pub closed : List ℕ

-- `__init__`
abbrev pub new_client : ClearanceClient
new_client = record {
  sub_transport = none;
  rpc_transport = none;
  sub_proxy = none;
  rpc_proxy = none;
  stream_task = false;
  stopping = false;
  reconnect_poke = false;
  closed = [];
}

abbrev pub closing : Option ℕ → List ℕ → List ℕ
closing none closed = closed
closing (some n) closed = n ∷ closed

-- `_close_transports`
unfoldable pub close_transports : ClearanceClient → ClearanceClient
close_transports client = record client {
  sub_transport = none;
  rpc_transport = none;
  sub_proxy = none;
  rpc_proxy = none;
  closed = closing client.rpc_transport (closing client.sub_transport client.closed);
}

-- `_connect`, with what its two attempts come to.
unfoldable pub connect :
    Result Failure ℕ
    → Result Failure ℕ
    → ClearanceClient
    → ClearanceClient × Result Failure (Unit {0})
unfolding close_transports
connect (raise e) second client = (close_transports client, raise e)
connect (ok n) (raise e) client =
    (close_transports (record client { sub_transport = some n }), raise e)
connect (ok n) (ok m) client = (
  record client {
    sub_transport = some n;
    rpc_transport = some m;
    sub_proxy = some n;
    rpc_proxy = some m;
  },
  ok tt,
)

abbrev pub spawn_stream :
    ClearanceClient × Result Failure (Unit {0}) → ClearanceClient × Result Failure (Unit {0})
spawn_stream (client, raise e) = (client, raise e)
spawn_stream (client, ok done) = (record client { stream_task = true }, ok tt)

-- `start`
unfoldable pub start :
    Result Failure ℕ
    → Result Failure ℕ
    → ClearanceClient
    → ClearanceClient × Result Failure (Unit {0})
unfolding connect
start first second client = spawn_stream (connect first second (record client { stopping = false }))

-- `stop`
unfoldable pub stop : ClearanceClient → ClearanceClient
unfolding close_transports
stop client = close_transports (record client { stopping = true; stream_task = false })

-- `poke_reconnect`
unfoldable pub poke_reconnect : ClearanceClient → ClearanceClient
poke_reconnect client = record client { reconnect_poke = true }
