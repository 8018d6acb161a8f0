-- ===== src/Hub/Preserved.antt =====
-- hub/server.py: each operation of the hub and the validity of the hub.
use terok_clearance.Common.{
  ℕ, String, Bool, Option, none, some, List, [], ◌∷◌, ◌≡◌, refl, arith, string_eq, nat_eq, ◌==◌,
  inl, inr, Bool-cases, not, ◌||◌, get, put, remove_all, contains, All, put-IsDict, remove-IsDict,
  remove_all-IsDict, Result, ok, raise,
}
use terok_clearance.Domain.Events.{ClearanceEvent, verdict_actions}
use terok_clearance.Wire.Errors.{ClearanceError}
use terok_clearance.Hub.Payload.{Fields}
use terok_clearance.Hub.State.{Hub, Subscriber, Binding}
use terok_clearance.Hub.Invariant.{
  IsValid, IsBounded, SameKeys-put, SameKeys-remove, SameKeys-remove_all, timed_of_bound,
}
use terok_clearance.Hub.Relay.{
  fan_out, update_live_verdicts, binds, retires, Admission, dropped, failed, admitted, perform,
  admit, relay_reader_event,
}
use terok_clearance.Hub.Relay.Queue.{receive-All-IsBounded}
use terok_clearance.Hub.Cleanup.{cleanup_stale_verdicts, expire}
use terok_clearance.Hub.Mute.{set_mute, set_mute_as, mute_key}
use terok_clearance.Hub.Verdict.{
  InFlight, Answer, restore, take_binding, check_tuple, begin_taken, begin_verdict, outcome_event,
  settle, flight, finish_verdict,
}
use terok_clearance.Hub.Subscription.{subscribe, without, unsubscribe, after_get, get_from, deliver}

pub fan_out-IsValid :
    (event : ClearanceEvent) {hub : Hub} → IsValid hub → IsValid (fan_out event hub)
unfolding fan_out
fan_out-IsValid event {hub} h = record {
  live_dict = h.live_dict;
  ts_dict = h.ts_dict;
  same_keys = h.same_keys;
  bounded = receive-All-IsBounded event hub.subscribers h.bounded;
}

module _ {hub : Hub} (h : IsValid hub) where
  -- Both maps lose the same keys.
  pub purged-IsValid :
      (ks muted : List String)
      → IsValid (record hub {
        live_verdicts = remove_all ks hub.live_verdicts;
        live_verdicts_ts = remove_all ks hub.live_verdicts_ts;
        muted = muted;
      })
  purged-IsValid ks muted = record {
    live_dict = remove_all-IsDict ks hub.live_verdicts h.live_dict;
    ts_dict = remove_all-IsDict ks hub.live_verdicts_ts h.ts_dict;
    same_keys = SameKeys-remove_all hub.live_verdicts hub.live_verdicts_ts h.same_keys ks;
    bounded = h.bounded;
  }

  -- Both maps gain the same key.
  pub bound-IsValid :
      (k : String) (b : Binding) (t : ℕ)
      → IsValid (record hub {
        live_verdicts = put k b hub.live_verdicts;
        live_verdicts_ts = put k t hub.live_verdicts_ts;
      })
  bound-IsValid k b t = record {
    live_dict = put-IsDict k b hub.live_verdicts h.live_dict;
    ts_dict = put-IsDict k t hub.live_verdicts_ts h.ts_dict;
    same_keys = SameKeys-put hub.live_verdicts hub.live_verdicts_ts h.same_keys k b t;
    bounded = h.bounded;
  }

  pub take_binding-IsValid : (k : String) → IsValid (take_binding k hub)
  unfolding take_binding
  take_binding-IsValid k = record {
    live_dict = remove-IsDict k hub.live_verdicts h.live_dict;
    ts_dict = remove-IsDict k hub.live_verdicts_ts h.ts_dict;
    same_keys = SameKeys-remove hub.live_verdicts hub.live_verdicts_ts h.same_keys k;
    bounded = h.bounded;
  }

  -- A verdict that took a time with its binding is put back whole.
  pub restore-IsValid : (v : InFlight) (t : ℕ) → v.ts ≡ some t → IsValid (restore v hub)
  unfolding restore
  restore-IsValid v t timed = rw timed (bound-IsValid v.request_id v.live t)

  pub update-IsValid :
      (now : ℕ) (event : ClearanceEvent) → IsValid (update_live_verdicts now event hub)
  unfolding update_live_verdicts
  update-IsValid now event = elim (Bool-cases (binds event)) [
    | inl prompt ↦ rw prompt (bound-IsValid event.request_id _ now)
    | inr other ↦ rw other (elim (Bool-cases (retires event)) [
      | inl ends ↦ rw ends (purged-IsValid _ _)
      | inr stays ↦ rw stays h
    ])
  ]

  perform-IsValid : (now : ℕ) (a : Admission) → IsValid (perform now a hub).0
  unfolding perform
  perform-IsValid now dropped = h
  perform-IsValid now (failed e) = h
  perform-IsValid now (admitted event) = fan_out-IsValid event (update-IsValid now event)

  pub relay-IsValid : (now : ℕ) (raw : Fields) → IsValid (relay_reader_event now raw hub).0
  unfolding relay_reader_event
  relay-IsValid now raw = perform-IsValid now (admit hub raw)

  expire-IsValid : (now : ℕ) (ttl : Option ℕ) → IsValid (expire now ttl hub).0
  unfolding expire
  expire-IsValid now none = h
  expire-IsValid now (some ttl) = purged-IsValid _ hub.muted

  pub cleanup-IsValid : (now : ℕ) → IsValid (cleanup_stale_verdicts now hub).0
  unfolding cleanup_stale_verdicts
  cleanup-IsValid now = expire-IsValid now hub.verdict_ttl

  -- What the mute set is has no part in validity.
  muted-IsValid : (muted : List String) → IsValid (record hub { muted = muted })
  muted-IsValid muted = record {
    live_dict = h.live_dict;
    ts_dict = h.ts_dict;
    same_keys = h.same_keys;
    bounded = h.bounded;
  }

  set_mute_as-IsValid :
      (m : Bool) (r : Result ClearanceError String) → IsValid (set_mute_as m r hub).0
  unfolding set_mute_as
  set_mute_as-IsValid m (raise e) = h
  set_mute_as-IsValid m (ok key) = muted-IsValid _

  pub set_mute-IsValid : (c : String) (m : Bool) → IsValid (set_mute c m hub).0
  unfolding set_mute
  set_mute-IsValid c m = set_mute_as-IsValid m (mute_key hub c)

  check_tuple-IsValid : (v : InFlight) (t : ℕ) → v.ts ≡ some t → IsValid (check_tuple v hub).0
  unfolding check_tuple
  check_tuple-IsValid v t timed =
      elim (Bool-cases (not (v.live.0 == v.container) || not (v.live.1 == v.dest))) [
        | inl differs ↦ rw differs (restore-IsValid v t timed)
        | inr agrees ↦ rw agrees h
      ]

  settle-IsValid :
      (v : InFlight) (answer : Answer) (t : ℕ) → v.ts ≡ some t → IsValid (settle v answer hub)
  unfolding settle
  settle-IsValid v answer t timed = elim (Bool-cases answer.ok) [
    | inl applied ↦ rw applied h
    | inr refused ↦ rw refused (restore-IsValid v t timed)
  ]

  pub finish-IsValid :
      (v : InFlight) (answer : Answer) (t : ℕ)
      → v.ts ≡ some t
      → IsValid (finish_verdict v answer hub).0
  unfolding finish_verdict
  finish-IsValid v answer t timed =
      fan_out-IsValid (outcome_event v answer) (settle-IsValid v answer t timed)

  subscribers-IsValid :
      (subs : List Subscriber) (key : ℕ)
      → All IsBounded subs
      → IsValid (record hub { subscribers = subs; next_key = key })
  subscribers-IsValid subs key b = record {
    live_dict = h.live_dict;
    ts_dict = h.ts_dict;
    same_keys = h.same_keys;
    bounded = b;
  }

  pub subscribe-IsValid : IsValid (subscribe hub).0
  unfolding subscribe
  subscribe-IsValid = subscribers-IsValid _ _ (omega arith, h.bounded)

without-IsBounded :
    (key : ℕ) (subs : List Subscriber) → All IsBounded subs → All IsBounded (without key subs)
unfolding without
without-IsBounded key [] b = tt
without-IsBounded key (s ∷ subs) b = elim (Bool-cases (s.key == key)) [
  | inl gone ↦ rw gone (without-IsBounded key subs b.1)
  | inr kept ↦ rw kept (b.0, without-IsBounded key subs b.1)
]

after_get-IsBounded : (s : Subscriber) → IsBounded s → IsBounded (after_get s)
after_get-IsBounded s b = ground arith

get_from-IsBounded :
    (key : ℕ) (subs : List Subscriber) → All IsBounded subs → All IsBounded (get_from key subs)
unfolding get_from
get_from-IsBounded key [] b = tt
get_from-IsBounded key (s ∷ subs) b = (
  elim (Bool-cases (s.key == key)) [
    | inl here ↦ rw here (after_get-IsBounded s b.0)
    | inr other ↦ rw other b.0
  ],
  get_from-IsBounded key subs b.1,
)

module _ {hub : Hub} (h : IsValid hub) where
  pub unsubscribe-IsValid : (key : ℕ) → IsValid (unsubscribe key hub)
  unfolding unsubscribe
  unsubscribe-IsValid key =
      subscribers-IsValid h _ hub.next_key (without-IsBounded key hub.subscribers h.bounded)

  pub deliver-IsValid : (key : ℕ) → IsValid (deliver key hub).0
  unfolding deliver
  deliver-IsValid key =
      subscribers-IsValid h _ hub.next_key (get_from-IsBounded key hub.subscribers h.bounded)

  begin_taken-IsValid :
      (c k d a : String) (live : Option Binding)
      → get k hub.live_verdicts ≡ live
      → IsValid (begin_taken c k d a live (get k hub.live_verdicts_ts) (take_binding k hub)).0
  unfolding begin_taken
  begin_taken-IsValid c k d a none e = take_binding-IsValid h k
  begin_taken-IsValid c k d a (some live) e =
      let (t, timed) = timed_of_bound h k live e in
      check_tuple-IsValid (take_binding-IsValid h k) (flight c k d a live _) t timed

  pub begin-IsValid : (c k d a : String) → IsValid (begin_verdict c k d a hub).0
  unfolding begin_verdict
  begin-IsValid c k d a = elim (Bool-cases (contains a verdict_actions)) [
    | inl known ↦ rw known (begin_taken-IsValid c k d a _ refl)
    | inr unknown ↦ rw unknown h
  ]
