-- ===== src/Client/Stream.antt =====
-- client/client.py: `_run_stream`, round by round, of a client that has connected. A round is one
-- subscription to its end, the wait, and the attempt to connect again. What the callback raises is
-- swallowed, so it has no part in the model.
pub mod Backoff
use Prim.Native.Nat.{min, ◌*◌}
use terok_clearance.Common.{
  ℕ, Bool, true, false, ◌||◌, Option, none, some, List, [], ◌∷◌, ◌++◌, Result, ok, raise,
}
use terok_clearance.Domain.Events.{ClearanceEvent}
use terok_clearance.Client.Connection.{Failure, ClearanceClient, close_transports, connect}

-- `_MAX_RECONNECT_BACKOFF_S`
abbrev pub max_reconnect_backoff : ℕ
max_reconnect_backoff = 10

-- The events that a subscription yields before it ends, whether the client is told to stop by then,
-- whether a poke comes during the wait, and what the two attempts to connect come to.
pub record Round : Type 0 where
  pub events : List ClearanceEvent
  pub stopping : Bool
  pub poked : Bool
  pub first : Result Failure ℕ
  pub second : Result Failure ℕ

-- The client, the back-off in seconds, and the events that the callback was given, in order.
pub record Stream : Type 0 where
  pub client : ClearanceClient
  pub backoff : ℕ
  pub delivered : List ClearanceEvent

-- What the callback is given: without a proxy, the subscription fails at once.
abbrev pub received : Option ℕ → List ClearanceEvent → List ClearanceEvent
received none events = []
received (some n) events = events

-- The wait: a time-out doubles the back-off up to its cap, a poke resets it.
abbrev pub next_backoff : Bool → ℕ → ℕ
next_backoff true backoff = 1
next_backoff false backoff = min (backoff * 2) max_reconnect_backoff

abbrev pub connected_backoff : Result Failure (Unit {0}) → ℕ → ℕ
connected_backoff (ok done) backoff = 1
connected_backoff (raise e) backoff = backoff

abbrev pub wait : Bool → ClearanceClient → ClearanceClient
wait true client = record client { reconnect_poke = false }
wait false client = client

-- The round after its subscription has ended.
unfoldable pub reconnect : Round → Stream → Stream
unfolding close_transports connect
reconnect r s =
    let poked = s.client.reconnect_poke || r.poked in
    let (client, result) = connect r.first r.second (wait poked (close_transports s.client)) in
    record {
      client = client;
      backoff = connected_backoff result (next_backoff poked s.backoff);
      delivered = s.delivered;
    }

abbrev pub take_in : Round → Stream → Stream
take_in r s = record {
  client = record s.client { stopping = r.stopping };
  backoff = s.backoff;
  delivered = s.delivered ++ received s.client.sub_proxy r.events;
}

-- The loop, over the rounds that it has time for.
unfoldable pub run_rounds : List Round → Stream → Stream
unfolding reconnect
run_rounds [] s = s
run_rounds (r ∷ rest) s =
    let s' = take_in r s in
    let later = run_rounds rest (reconnect r s') in elim r.stopping [ true ↦ s' | false ↦ later ]

abbrev pub opened : ClearanceClient → Stream
opened client = record { client = client; backoff = 1; delivered = [] }
