-- ===== src/Hub/System/Soundness.antt =====
-- One induction over schedules, for what is known of a binding when its prompt is admitted.
use terok_clearance.Common.{
  ℕ, String, Bool, true, Option, none, some, List, [], ◌∷◌, Dict, ◌≡◌, ◌∙◌, Returned, refl,
  string_eq, All, All-imp, Entries, Entries-get, Result, ok, raise,
}
use terok_clearance.Domain.Events.{ClearanceEvent}
use terok_clearance.Wire.Errors.{ClearanceError}
use terok_clearance.Hub.Payload.{Fields}
use terok_clearance.Hub.State.{Hub, Binding}
use terok_clearance.Hub.Invariant.{IsValid, timed_of_bound}
use terok_clearance.Hub.Verdict.Begin.{IsBegun, begin_lem}
use terok_clearance.Hub.Preserved.{
  relay-IsValid, relay-IsValid, cleanup-IsValid, subscribe-IsValid, unsubscribe-IsValid,
  deliver-IsValid, set_mute-IsValid, begin-IsValid, finish-IsValid,
}
use terok_clearance.Hub.Relay.{
  Admission, dropped, failed, admitted, admit, perform, relay_reader_event, fan_out, binds,
  event_target,
}
use terok_clearance.Hub.Cleanup.{cleanup_stale_verdicts}
use terok_clearance.Hub.Mute.{set_mute, mute_key}
use terok_clearance.Hub.Verdict.{InFlight, Answer, outcome_event, finish_verdict}
use terok_clearance.Hub.Lifecycle.{stop}
use terok_clearance.Hub.Lifecycle.Running.{start-IsValid, stop-IsValid}
use terok_clearance.Hub.Subscription.{subscribe, unsubscribe, deliver}
use terok_clearance.Hub.System.{
  System, Action, relay, cleanup, join, leave, read, mute, begin, finish, record_admission, waiting,
  pick, settle_picked, step, run, abandon, abandon_picked, bring_up, shut_down,
}
use terok_clearance.Hub.System.Knowing.{Knowledge, IsFlight, PickAll, PickAll-pick, IsSound}
use terok_clearance.Hub.System.Operations.{
  update_frame, expire_frame, set_mute_frame, begin_frame, settle_frame, start_frame, Entries-start,
  Entries-update, Entries-expire, Entries-set_mute, Entries-begin, Entries-settle,
}

module _ (P : Knowledge) (own : Option String)
    (grows : (e : ClearanceEvent) (log : List ClearanceEvent) (k : String) (b : Binding)
      → P log k b
      → P (e ∷ log) k b)
    (prompted : (hub : Hub) (raw : Fields) (e : ClearanceEvent) (log : List ClearanceEvent)
      → hub.container ≡ own
      → admit hub raw ≡ admitted e
      → binds e ≡ true
      → P (e ∷ log) e.request_id (e.container, event_target e)) where
  live_grows :
      (e : ClearanceEvent) (log : List ClearanceEvent) (d : Dict String Binding)
      → Entries (P log) d
      → Entries (P (e ∷ log)) d
  live_grows e log d h = All-imp (λ kb. grows e log kb.0 kb.1) d h

  flights_grow :
      (e : ClearanceEvent) (log : List ClearanceEvent) (vs : List InFlight)
      → All (λ v. IsFlight (P log v.request_id) v) vs
      → All (λ v. IsFlight (P (e ∷ log) v.request_id) v) vs
  flights_grow e log vs h =
      All-imp
        (λ v f. record {
          known = grows e log v.request_id v.live f.known;
          container = f.container;
          dest = f.dest;
          action = f.action;
          timed = f.timed;
        })
        vs h

  module _ {s : System} (h : IsSound P own s) where
    perform-IsSound :
        (now : ℕ) (raw : Fields) (a : Admission)
        → admit s.hub raw ≡ a
        → IsValid (perform now a s.hub).0
        → IsSound P own (record s { hub = (perform now a s.hub).0; log = record_admission a s.log })
    unfolding perform record_admission fan_out
    perform-IsSound now raw dropped e valid = h
    perform-IsSound now raw (failed x) e valid = h
    perform-IsSound now raw (admitted event) e valid = record {
      valid = valid;
      container = (update_frame now event s.hub).container ∙ h.container;
      live =
          Entries-update (P (event ∷ s.log)) now event s.hub
            (prompted s.hub raw event s.log h.container e)
            (live_grows event s.log s.hub.live_verdicts h.live);
      flights = flights_grow event s.log s.in_flight h.flights;
    }

    relay-IsSound : (now : ℕ) (raw : Fields) → IsSound P own (step (relay now raw) s)
    unfolding step relay_reader_event
    relay-IsSound now raw =
        perform-IsSound now raw (admit s.hub raw) refl (relay-IsValid h.valid now raw)

    cleanup-IsSound : (now : ℕ) → IsSound P own (step (cleanup now) s)
    unfolding step cleanup_stale_verdicts
    cleanup-IsSound now = record {
      valid = cleanup-IsValid h.valid now;
      container = (expire_frame now s.hub.verdict_ttl s.hub).container ∙ h.container;
      live = Entries-expire (P s.log) now s.hub.verdict_ttl s.hub h.live;
      flights = h.flights;
    }

    join-IsSound : IsSound P own (step join s)
    unfolding step subscribe
    join-IsSound = record {
      valid = subscribe-IsValid h.valid;
      container = h.container;
      live = h.live;
      flights = h.flights;
    }

    leave-IsSound : (key : ℕ) → IsSound P own (step (leave key) s)
    unfolding step unsubscribe
    leave-IsSound key = record {
      valid = unsubscribe-IsValid h.valid key;
      container = h.container;
      live = h.live;
      flights = h.flights;
    }

    read-IsSound : (key : ℕ) → IsSound P own (step (read key) s)
    unfolding step deliver
    read-IsSound key = record {
      valid = deliver-IsValid h.valid key;
      container = h.container;
      live = h.live;
      flights = h.flights;
    }

    mute-IsSound : (c : String) (m : Bool) → IsSound P own (step (mute c m) s)
    unfolding step set_mute
    mute-IsSound c m = record {
      valid = set_mute-IsValid h.valid c m;
      container = (set_mute_frame m (mute_key s.hub c) s.hub).container ∙ h.container;
      live = Entries-set_mute (P s.log) m (mute_key s.hub c) s.hub h.live;
      flights = h.flights;
    }

    begun-IsFlight :
        (c k d a : String) {v : InFlight}
        → IsBegun s.hub c k d a v
        → IsFlight (P s.log v.request_id) v
    begun-IsFlight c k d a b =
        let (t, timed) = timed_of_bound h.valid k (c, d) b.bound in
        rw b.call (record {
          known = Entries-get (P s.log) k (c, d) s.hub.live_verdicts h.live b.bound;
          container = refl;
          dest = refl;
          action = b.action;
          timed = (t, timed);
        })

    waiting_flights :
        (c k d a : String) (r : Result ClearanceError InFlight)
        → Returned (IsBegun s.hub c k d a) r
        → All (λ v. IsFlight (P s.log v.request_id) v) (waiting s.in_flight r)
    unfolding waiting
    waiting_flights c k d a (ok v) b = (begun-IsFlight c k d a b, h.flights)
    waiting_flights c k d a (raise e) b = h.flights

    begin-IsSound : (c k d a : String) → IsSound P own (step (begin c k d a) s)
    unfolding step
    begin-IsSound c k d a = record {
      valid = begin-IsValid h.valid c k d a;
      container = (begin_frame c k d a s.hub).container ∙ h.container;
      live = Entries-begin (P s.log) c k d a s.hub h.live;
      flights = waiting_flights c k d a _ (begin_lem s.hub c k d a);
    }

    settle_picked-IsSound :
        (answer : Answer) (picked : Option (InFlight × List InFlight))
        → PickAll (λ v. IsFlight (P s.log v.request_id) v) picked
        → IsSound P own (settle_picked answer picked s)
    unfolding settle_picked finish_verdict fan_out
    settle_picked-IsSound answer none f = h
    settle_picked-IsSound answer (some (v, others)) f = record {
      valid = finish-IsValid h.valid v answer f.0.timed.0 f.0.timed.1;
      container = (settle_frame v answer s.hub).container ∙ h.container;
      live =
          live_grows (outcome_event v answer) s.log _
            (Entries-settle (P s.log) v answer s.hub f.0.known h.live);
      flights = flights_grow (outcome_event v answer) s.log others f.1;
    }

    finish-IsSound : (i : ℕ) (answer : Answer) → IsSound P own (step (finish i answer) s)
    unfolding step
    finish-IsSound i answer =
        settle_picked-IsSound answer (pick i s.in_flight) (PickAll-pick _ i s.in_flight h.flights)

    abandon_picked-IsSound :
        (picked : Option (InFlight × List InFlight))
        → PickAll (λ v. IsFlight (P s.log v.request_id) v) picked
        → IsSound P own (abandon_picked picked s)
    unfolding abandon_picked
    abandon_picked-IsSound none f = h
    abandon_picked-IsSound (some (v, others)) f = record {
      valid = h.valid;
      container = h.container;
      live = h.live;
      flights = f.1;
    }

    abandon-IsSound : (i : ℕ) → IsSound P own (step (abandon i) s)
    unfolding step
    abandon-IsSound i =
        abandon_picked-IsSound (pick i s.in_flight) (PickAll-pick _ i s.in_flight h.flights)

    bring_up-IsSound : (i v : Bool) → IsSound P own (step (bring_up i v) s)
    unfolding step
    bring_up-IsSound i v = record {
      valid = start-IsValid i v h.valid;
      container = (start_frame i v s.hub).container ∙ h.container;
      live = Entries-start (P s.log) i v s.hub h.live;
      flights = h.flights;
    }

    shut_down-IsSound : IsSound P own (step shut_down s)
    unfolding step stop
    shut_down-IsSound = record {
      valid = stop-IsValid s.hub;
      container = h.container;
      live = tt;
      flights = h.flights;
    }

    pub step-IsSound : (a : Action) → IsSound P own (step a s)
    step-IsSound (relay now raw) = relay-IsSound now raw
    step-IsSound (cleanup now) = cleanup-IsSound now
    step-IsSound join = join-IsSound
    step-IsSound (leave key) = leave-IsSound key
    step-IsSound (read key) = read-IsSound key
    step-IsSound (mute c m) = mute-IsSound c m
    step-IsSound (begin c k d a) = begin-IsSound c k d a
    step-IsSound (finish i answer) = finish-IsSound i answer
    step-IsSound (abandon i) = abandon-IsSound i
    step-IsSound (bring_up i v) = bring_up-IsSound i v
    step-IsSound shut_down = shut_down-IsSound

  pub run-IsSound :
      (actions : List Action) {s : System} → IsSound P own s → IsSound P own (run actions s)
  unfolding run
  run-IsSound [] h = h
  run-IsSound (a ∷ rest) h = run-IsSound rest (step-IsSound h a)
