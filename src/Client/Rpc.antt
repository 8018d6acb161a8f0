-- ===== src/Client/Rpc.antt =====
-- client/client.py: the calls that ride the second connection. What the hub's reply comes to is an
-- argument.
pub mod Unknown
use terok_clearance.Common.{
  ℕ, String, Bool, true, false, Option, none, some, List, Result, ok, raise,
}
use terok_clearance.Client.Connection.{Failure, error_reply, disconnected, other, ClearanceClient}

-- `reply.get("ok", False)`
abbrev pub applied : Option Bool → Bool
applied none = false
applied (some b) = b

unfoldable pub verdict_reply : Result Failure (Option Bool) → Result Failure Bool
verdict_reply (ok reply) = ok (applied reply)
verdict_reply (raise error_reply) = ok false
verdict_reply (raise e) = raise e

-- `verdict`
unfoldable pub verdict : Result Failure (Option Bool) → ClearanceClient → Result Failure Bool
unfolding verdict_reply
verdict reply client = elim client.rpc_proxy [ none ↦ ok false | some n ↦ verdict_reply reply ]

-- A reply, or `None` where one of `_RPC_FAILURES` is raised.
unfoldable pub landed : {A : Type 0} → Result Failure A → Result Failure (Option A)
landed (ok reply) = ok (some reply)
landed (raise other) = raise other
landed (raise _) = ok none

-- `set_mute`
unfoldable pub set_mute : Result Failure Bool → ClearanceClient → Result Failure (Option Bool)
unfolding landed
set_mute reply client = elim client.rpc_proxy [ none ↦ ok none | some n ↦ landed reply ]

-- `mutes`: the set of the listed containers.
unfoldable pub mutes :
    Result Failure (List String) → ClearanceClient → Result Failure (Option (List String))
unfolding landed
mutes reply client = elim client.rpc_proxy [ none ↦ ok none | some n ↦ landed reply ]
