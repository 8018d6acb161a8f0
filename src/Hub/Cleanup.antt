-- ===== src/Hub/Cleanup.antt =====
-- hub/server.py: the expiry of pending verdicts.
pub mod Expiry
use terok_clearance.Common.{
  ℕ, ◌-◌, String, Bool, Option, none, some, List, [], ◌∷◌, Dict, ltb, length, string_eq, remove_all,
  keys_where,
}
use terok_clearance.Hub.State.{Hub}

-- `now - ts > ttl`
abbrev pub is_stale : ℕ → ℕ → ℕ → Bool
is_stale now ttl ts = ltb ttl (now - ts)

unfoldable pub expire : ℕ → Option ℕ → Hub → Hub × ℕ
expire now none hub = (hub, 0)
expire now (some ttl) hub =
    let stale = keys_where (is_stale now ttl) hub.live_verdicts_ts in
    (
      record hub {
        live_verdicts = remove_all stale hub.live_verdicts;
        live_verdicts_ts = remove_all stale hub.live_verdicts_ts;
      },
      length stale,
    )

-- `_cleanup_stale_verdicts`: the new state and the number of entries removed.
unfoldable pub cleanup_stale_verdicts : ℕ → Hub → Hub × ℕ
unfolding expire
cleanup_stale_verdicts now hub = expire now hub.verdict_ttl hub

-- `_cleanup_loop` over the clock readings at which it wakes.
unfoldable pub cleanup_loop : List ℕ → Hub → Hub
cleanup_loop [] hub = hub
cleanup_loop (now ∷ rest) hub = cleanup_loop rest (cleanup_stale_verdicts now hub).0
