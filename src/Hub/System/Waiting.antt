-- ===== src/Hub/System/Waiting.antt =====
-- hub/server.py: a rule on events and the subscribers' queues, along every schedule.
use terok_clearance.Common.{
  ℕ, String, true, Option, none, some, List, [], ◌∷◌, ◌≡◌, refl, sym, subst, string_eq, nat_eq,
  ◌==◌, inl, inr, Bool-cases, All, All-append, map, drop,
}
use terok_clearance.Domain.Events.{ClearanceEvent}
use terok_clearance.Hub.Payload.{Fields}
use terok_clearance.Hub.State.{Hub, Subscriber, Binding}
use terok_clearance.Hub.Relay.{
  Admission, dropped, failed, admitted, push, full, receive, admit, perform, relay_reader_event,
  fan_out, binds, event_target,
}
use terok_clearance.Hub.Cleanup.{cleanup_stale_verdicts}
use terok_clearance.Hub.Mute.{set_mute, mute_key}
use terok_clearance.Hub.Verdict.{InFlight, Answer, outcome_event, finish_verdict}
use terok_clearance.Hub.Lifecycle.{stop}
use terok_clearance.Hub.Subscription.{subscribe, without, unsubscribe, after_get, get_from, deliver}
use terok_clearance.Hub.System.{
  System, Action, relay, cleanup, join, leave, read, mute, begin, finish, started, pick,
  settle_picked, abandon, abandon_picked, bring_up, shut_down, step, run,
}
use terok_clearance.Hub.System.Operations.{
  update_frame, expire_frame, set_mute_frame, begin_frame, settle_frame, start_frame,
}
use terok_clearance.Hub.System.Knowing.{Knowledge, IsSound, IsFlight, PickAll, PickAll-pick}
use terok_clearance.Hub.System.Soundness.{step-IsSound}
use terok_clearance.Hub.Invariant.{IsFresh}
use terok_clearance.Hub.System.Fresh.{started-IsSound}

module _ (P : ClearanceEvent → Type 0) where
  abbrev IsQueue : Subscriber → Type 0
  IsQueue s = All P s.queue

  push-All :
      (e : ClearanceEvent) (queue : List ClearanceEvent) → P e → All P queue → All P (push e queue)
  unfolding push
  push-All e queue c h = elim (Bool-cases (full queue)) [
    | inl over ↦ rw over (All-append P (drop 1 queue) (e ∷ []) (tail_all queue h) (c, tt))
    | inr room ↦ rw room (All-append P queue (e ∷ []) h (c, tt))
  ]
    where
      tail_all : (q : List ClearanceEvent) → All P q → All P (drop 1 q)
      tail_all [] h = tt
      tail_all (x ∷ q) h = h.1

  receive-All :
      (e : ClearanceEvent) (subs : List Subscriber)
      → P e
      → All IsQueue subs
      → All IsQueue (map (receive e) subs)
  receive-All e [] c h = tt
  receive-All e (s ∷ subs) c h = (push-All e s.queue c h.0, receive-All e subs c h.1)

  abbrev Queued : List Subscriber → Type 0
  Queued subs = All IsQueue subs

  without-Queued : (key : ℕ) (subs : List Subscriber) → Queued subs → Queued (without key subs)
  unfolding without
  without-Queued key [] h = tt
  without-Queued key (s ∷ subs) h = elim (Bool-cases (s.key == key)) [
    | inl gone ↦ rw gone (without-Queued key subs h.1)
    | inr kept ↦ rw kept (h.0, without-Queued key subs h.1)
  ]

  after_get-Queued : (s : Subscriber) → IsQueue s → IsQueue (after_get s)
  after_get-Queued s h = go s.queue h
    where
      go : (q : List ClearanceEvent) → All P q → All P (elim q [ [] ↦ [] | e ∷ rest ↦ rest ])
      go [] h = tt
      go (e ∷ q) h = h.1

  get_from-Queued : (key : ℕ) (subs : List Subscriber) → Queued subs → Queued (get_from key subs)
  unfolding get_from
  get_from-Queued key [] h = tt
  get_from-Queued key (s ∷ subs) h = elim (Bool-cases (s.key == key)) [
    | inl here ↦ rw here (after_get-Queued s h.0, get_from-Queued key subs h.1)
    | inr other ↦ rw other (h.0, get_from-Queued key subs h.1)
  ]

-- A rule that every event obeys that a hub for `own` admits or makes of a verdict.
module _ (P : ClearanceEvent → Type 0) (K : Knowledge) (own : Option String)
    (kept : (e : ClearanceEvent) (log : List ClearanceEvent) (k : String) (b : Binding)
      → K log k b
      → K (e ∷ log) k b)
    (known : (hub : Hub) (raw : Fields) (e : ClearanceEvent) (log : List ClearanceEvent)
      → hub.container ≡ own
      → admit hub raw ≡ admitted e
      → binds e ≡ true
      → K (e ∷ log) e.request_id (e.container, event_target e))
    (admitted-P : (hub : Hub) (raw : Fields) (e : ClearanceEvent)
      → hub.container ≡ own
      → admit hub raw ≡ admitted e
      → P e)
    (outcome-P : (v : InFlight) (answer : Answer) (log : List ClearanceEvent)
      → IsFlight (K log v.request_id) v
      → P (outcome_event v answer)) where
  pub record IsHeld (s : System) : Type 0 where
    pub sound : IsSound K own s
    pub queues : Queued P s.hub.subscribers

  module _ {s : System} (h : IsHeld s) where
    perform-Queued :
        (now : ℕ) (raw : Fields) (a : Admission)
        → admit s.hub raw ≡ a
        → Queued P (perform now a s.hub).0.subscribers
    unfolding perform fan_out
    perform-Queued now raw dropped adm = h.queues
    perform-Queued now raw (failed x) adm = h.queues
    perform-Queued now raw (admitted e) adm =
        receive-All P e _ (admitted-P s.hub raw e h.sound.container adm)
          (subst (Queued P) (sym (update_frame now e s.hub).subscribers) h.queues)

    picked-Queued :
        (answer : Answer) (picked : Option (InFlight × List InFlight))
        → PickAll (λ v. IsFlight (K s.log v.request_id) v) picked
        → Queued P (settle_picked answer picked s).hub.subscribers
    unfolding settle_picked finish_verdict fan_out
    picked-Queued answer none f = h.queues
    picked-Queued answer (some (v, others)) f =
        receive-All P (outcome_event v answer) _ (outcome-P v answer s.log f.0)
          (subst (Queued P) (sym (settle_frame v answer s.hub).subscribers) h.queues)

    abandoned-Queued :
        (picked : Option (InFlight × List InFlight))
        → Queued P (abandon_picked picked s).hub.subscribers
    unfolding abandon_picked
    abandoned-Queued none = h.queues
    abandoned-Queued (some (v, others)) = h.queues

    step-Queued : (a : Action) → Queued P (step a s).hub.subscribers
    unfolding step relay_reader_event cleanup_stale_verdicts subscribe unsubscribe deliver set_mute
        stop
    step-Queued (relay now raw) = perform-Queued now raw (admit s.hub raw) refl
    step-Queued (cleanup now) =
        subst (Queued P) (sym (expire_frame now s.hub.verdict_ttl s.hub).subscribers) h.queues
    step-Queued join = (tt, h.queues)
    step-Queued (leave k) = without-Queued P k s.hub.subscribers h.queues
    step-Queued (read k) = get_from-Queued P k s.hub.subscribers h.queues
    step-Queued (mute c m) =
        subst (Queued P) (sym (set_mute_frame m (mute_key s.hub c) s.hub).subscribers) h.queues
    step-Queued (begin c k d a) =
        subst (Queued P) (sym (begin_frame c k d a s.hub).subscribers) h.queues
    step-Queued (abandon i) = abandoned-Queued (pick i s.in_flight)
    step-Queued (bring_up i v) = subst (Queued P) (sym (start_frame i v s.hub).subscribers) h.queues
    step-Queued shut_down = tt
    step-Queued (finish i answer) =
        picked-Queued answer (pick i s.in_flight) (PickAll-pick _ i s.in_flight h.sound.flights)

    step-IsHeld : (a : Action) → IsHeld (step a s)
    step-IsHeld a = record {
      sound = step-IsSound K own kept known h.sound a;
      queues = step-Queued a;
    }

  run-IsHeld : (actions : List Action) {s : System} → IsHeld s → IsHeld (run actions s)
  unfolding run
  run-IsHeld [] h = h
  run-IsHeld (a ∷ rest) h = run-IsHeld rest (step-IsHeld h a)

  -- From a hub that starts fresh, the rule holds of every event that waits for a subscriber.
  pub waiting-All :
      (actions : List Action) (hub : Hub)
      → IsFresh hub
      → hub.container ≡ own
      → All (λ s. All P s.queue) (run actions (started hub)).hub.subscribers
  waiting-All actions hub fresh same =
      (run-IsHeld actions (record {
        sound = subst (λ o. IsSound K o (started hub)) same (started-IsSound K hub fresh);
        queues = rw fresh.subscribers tt;
      })).queues
