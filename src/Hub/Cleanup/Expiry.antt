-- ===== src/Hub/Cleanup/Expiry.antt =====
-- hub/server.py: which bindings `_cleanup_stale_verdicts` removes.
use terok_clearance.Common.{
  ℕ, ◌+◌, ◌-◌, String, Option, none, some, ◌≡◌, arith, string_eq, get, keys_where, length,
  get-remove_all, contains-keys_where, length-purge, get-purge, none_if, ltb, if◌then◌else◌,
}
use terok_clearance.Hub.State.{Hub, Binding}
use terok_clearance.Hub.Invariant.{IsValid}
use terok_clearance.Hub.Cleanup.{cleanup_stale_verdicts, expire, is_stale}

-- What is left of a binding with its time, at a reading of the clock.
abbrev pub unexpired : ℕ → ℕ → Option ℕ → Option Binding → Option Binding
unexpired now ttl none b = b
unexpired now ttl (some ts) b = if ltb ttl (now - ts) then none else b

-- On a valid hub with a TTL, expiry removes exactly the bindings whose time is older than the TTL,
-- with their times, and returns how many times it removed.
pub cleanup_lem :
    (now ttl : ℕ) (hub : Hub)
    → IsValid hub
    → hub.verdict_ttl ≡ some ttl
    → ((k : String)
        → get k (cleanup_stale_verdicts now hub).0.live_verdicts
          ≡ unexpired now ttl (get k hub.live_verdicts_ts) (get k hub.live_verdicts))
      × ((k : String)
          → get k (cleanup_stale_verdicts now hub).0.live_verdicts_ts
            ≡ none_if (λ ts. ltb ttl (now - ts)) (get k hub.live_verdicts_ts))
      × ((cleanup_stale_verdicts now hub).1
            + length (cleanup_stale_verdicts now hub).0.live_verdicts_ts
          ≡ length hub.live_verdicts_ts)
unfolding cleanup_stale_verdicts expire
cleanup_lem now ttl hub valid set = rw set (
  λ k. ground (
    arith,
    get-remove_all (keys_where (is_stale now ttl) hub.live_verdicts_ts) k hub.live_verdicts,
    contains-keys_where (is_stale now ttl) k hub.live_verdicts_ts valid.ts_dict,
    valid.same_keys k,
  ),
  λ k. get-purge (is_stale now ttl) k hub.live_verdicts_ts valid.ts_dict,
  length-purge (is_stale now ttl) hub.live_verdicts_ts valid.ts_dict,
)
