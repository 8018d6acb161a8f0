-- ===== src/Hub/Lifecycle/Running.antt =====
-- hub/server.py: what runs after a `start` or a `stop`.
use terok_clearance.Common.{Bool, true, false, ◌≡◌, refl, ap, sym, Result, ok, raise}
use terok_clearance.Hub.State.{Hub}
use terok_clearance.Hub.Invariant.{IsValid, IsFresh, fresh-IsValid}
use terok_clearance.Hub.Lifecycle.{
  StartFailure, ingester_failed, server_failed, expires, start, stop,
}

-- Nothing that the hub brings up is up.
pub record IsDown (hub : Hub) : Type 0 where
  pub varlink_server : hub.varlink_server ≡ false
  pub ingester : hub.ingester ≡ false
  pub cleanup_task : hub.cleanup_task ≡ false

-- Both sockets are up, and the background task where there is a TTL.
pub record IsUp (hub : Hub) : Type 0 where
  pub varlink_server : hub.varlink_server ≡ true
  pub ingester : hub.ingester ≡ true
  pub cleanup_task : hub.cleanup_task ≡ expires hub.verdict_ttl

-- What a start of a hub that is down may leave.
abbrev pub Started : Hub → Hub × Result StartFailure (Unit {0}) → Type 0
Started before (after, ok tt) = IsUp after
Started before (after, raise server_failed) = after ≡ before
Started before (after, raise ingester_failed) = after ≡ record before { ingester = true }

-- A start of a hub that is down either brings up both sockets, and the expiry task exactly where a TTL
-- is set; or the server cannot be bound, and the hub is as it was before; or the ingester cannot be
-- bound, and the hub is as before but for holding that ingester.
pub start-Started :
    (ingester server : Bool) (hub : Hub) → IsDown hub → Started hub (start ingester server hub)
unfolding start
start-Started false server hub down = refl
start-Started true false hub down = ap (λ i. record hub { ingester = i }) (sym down.ingester)
start-Started true true hub down = record {
  varlink_server = refl;
  ingester = refl;
  cleanup_task = refl;
}

-- Down, with nothing pending and nobody subscribed, and the keys and mutes of before.
pub record IsStopped (before after : Hub) : Type 0 where
  pub down : IsDown after
  pub fresh : IsFresh after
  pub container : after.container ≡ before.container
  pub mute_keys : after.mute_keys ≡ before.mute_keys
  pub muted : after.muted ≡ before.muted

-- After a stop nothing is up, nobody is subscribed and no verdict is pending, so that none of before
-- can be given; the hub keeps its container, its keys and its mutes.
pub stop-IsStopped : (hub : Hub) → IsStopped hub (stop hub)
unfolding stop
stop-IsStopped hub = record {
  down = record { varlink_server = refl; ingester = refl; cleanup_task = refl };
  fresh = record { subscribers = refl; live_verdicts = refl; live_verdicts_ts = refl };
  container = refl;
  mute_keys = refl;
  muted = refl;
}

pub stop-IsValid : (hub : Hub) → IsValid (stop hub)
stop-IsValid hub = fresh-IsValid (stop hub) (stop-IsStopped hub).fresh

pub start-IsValid :
    (ingester server : Bool) {hub : Hub} → IsValid hub → IsValid (start ingester server hub).0
unfolding start
start-IsValid false server h = record {
  live_dict = h.live_dict;
  ts_dict = h.ts_dict;
  same_keys = h.same_keys;
  bounded = h.bounded;
}
start-IsValid true false h = record {
  live_dict = h.live_dict;
  ts_dict = h.ts_dict;
  same_keys = h.same_keys;
  bounded = h.bounded;
}
start-IsValid true true h = record {
  live_dict = h.live_dict;
  ts_dict = h.ts_dict;
  same_keys = h.same_keys;
  bounded = h.bounded;
}
