-- ===== src/Hub/State.antt =====
-- hub/server.py: the state of `ClearanceHub`.
use terok_clearance.Common.{ℕ, String, Bool, Option, List, Dict}
use terok_clearance.Domain.Events.{ClearanceEvent}

-- `_SUBSCRIBER_QUEUE_DEPTH`
abbrev pub subscriber_queue_depth : ℕ
subscriber_queue_depth = 128

-- One connection's `asyncio.Queue`; the key stands for the identity of the queue object.
pub record Subscriber : Type 0 where
  pub key : ℕ
  pub queue : List ClearanceEvent

-- The `(container, dest)` that a request id is bound to.
abbrev pub Binding : Type 0
Binding = String × String

-- Times are monotonic clock readings in whole ticks, and so is the TTL.
pub record Hub : Type 0 where
  pub verdict_ttl : Option ℕ
  pub subscribers : List Subscriber
  pub next_key : ℕ
  pub live_verdicts : Dict String Binding
  pub live_verdicts_ts : Dict String ℕ
  pub cleanup_task : Bool
  pub container : Option String
  pub mute_keys : Dict String String
  pub muted : List String
  pub ingester : Bool
  pub varlink_server : Bool
