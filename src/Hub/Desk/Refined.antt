-- ===== src/Hub/Desk/Refined.antt =====
-- hub/server.py: the hub keeps what the desk promises.
use mathlib.Core.Path.{fun_ext}
use terok_clearance.Common.{
  ℕ, zero, suc, String, Bool, true, false, ◌&&◌, Option, none, some, List, [], ◌∷◌, map, ◌≡◌, refl,
  sym, ap, ap₂, ◌∙◌, arith, string_eq, ◌==◌, inl, inr, Bool-cases, beq_self, eq_of_beq, get,
  contains, if◌then◌else◌, Result, ok, raise, Returned-ok,
}
use terok_clearance.Domain.Events.{verdict_actions}
use terok_clearance.Wire.Errors.{ClearanceError}
use terok_clearance.Hub.State.{Hub, Binding}
use terok_clearance.Hub.Invariant.{IsValid, IsFresh, timed_of_bound}
use terok_clearance.Hub.Relay.{
  Admission, dropped, failed, admitted, admit, perform, relay_reader_event, fan_out,
}
use terok_clearance.Hub.Cleanup.{cleanup_stale_verdicts, expire}
use terok_clearance.Hub.Mute.{set_mute, set_mute_as, mute_key}
use terok_clearance.Hub.Lifecycle.{start, start_server, stop}
use terok_clearance.Hub.Subscription.{subscribe, unsubscribe, deliver}
use terok_clearance.Hub.Verdict.{InFlight, Answer, begin_verdict, settle, finish_verdict}
use terok_clearance.Hub.Verdict.Begin.{IsBegun, begin_lem, begin_bound, begin_refused}
use terok_clearance.Hub.Verdict.Outcome.{begun_state}
use terok_clearance.Hub.System.{
  System, Action, relay, cleanup, join, leave, read, mute, begin, finish, abandon, bring_up,
  shut_down, step, run, started, waiting, record_admission, pick, settle_picked, abandon_picked,
}
use terok_clearance.Hub.System.Knowing.{IsFlight, PickAll, PickAll-pick, IsSound}
use terok_clearance.Hub.System.Soundness.{step-IsSound}
use terok_clearance.Hub.System.Fresh.{started-IsSound}
use terok_clearance.Hub.Desk.{
  Entry, Ticket, Desk, claim, set_entry, time_of, claimed, take_at, settled, forgotten, obey,
  obey_all, blank_desk,
}
use terok_clearance.Hub.Desk.View.{
  both, entry_of, time_or_zero, ticket_of, view, hearing, expiring, command, commands,
}
use terok_clearance.Hub.Desk.Steps.{entry-update, entry-expire, entry-take_binding, entry-restore}

-- Desks with the same entries and the same tickets are one desk.
desk-path :
    {t t' : String → Option Entry} {ts ts' : List Ticket}
    → ((k : String) → t k ≡ t' k)
    → ts ≡ ts'
    → ◌≡◌ {A = Desk} (record { table = t; tickets = ts }) (record { table = t'; tickets = ts' })
desk-path same tickets = ap₂ (λ t ts. record { table = t; tickets = ts }) (fun_ext same) tickets

abbrev picked_ticket : Option (InFlight × List InFlight) → Option (Ticket × List Ticket)
picked_ticket none = none
picked_ticket (some (v, others)) = some (ticket_of v, map ticket_of others)

take_at-map :
    (i : ℕ) (vs : List InFlight) → take_at i (map ticket_of vs) ≡ picked_ticket (pick i vs)
unfolding take_at pick
take_at-map i [] = refl
take_at-map zero (v ∷ vs) = refl
take_at-map (suc i) (v ∷ vs) = rw (take_at-map i vs) (go (pick i vs))
  where
    go :
        (p : Option (InFlight × List InFlight))
        → elim (picked_ticket p) [ none ↦ none | some (w, ws) ↦ some (w, ticket_of v ∷ ws) ]
          ≡ picked_ticket (elim p [ none ↦ none | some (w, ws) ↦ some (w, v ∷ ws) ])
    go none = refl
    go (some (w, ws)) = refl

module _ (s : System) (valid : IsValid s.hub) where
  perform-view :
      (now : ℕ) (a : Admission) (log : _)
      → view (record s { hub = (perform now a s.hub).0; log = log }) ≡ obey (hearing now a) (view s)
  unfolding perform fan_out obey
  perform-view now dropped log = refl
  perform-view now (failed e) log = refl
  perform-view now (admitted event) log = desk-path (λ k. entry-update valid k now event) refl

  expire-view :
      (now : ℕ) (ttl : Option ℕ)
      → view (record s { hub = (expire now ttl s.hub).0 }) ≡ obey (expiring now ttl) (view s)
  unfolding obey
  expire-view now none = unfold expire in refl
  expire-view now (some ttl) = desk-path (λ k. entry-expire valid k now ttl) refl

  mute-view :
      (m : Bool) (r : Result ClearanceError String)
      → view (record s { hub = (set_mute_as m r s.hub).0 }) ≡ view s
  unfolding set_mute_as
  mute-view m (raise e) = refl
  mute-view m (ok key) = refl

  start-view : (i v : Bool) → view (record s { hub = (start i v s.hub).0 }) ≡ view s
  unfolding start start_server
  start-view false v = refl
  start-view true false = refl
  start-view true true = refl

  settle-view :
      (answer : Answer) (picked : Option (InFlight × List InFlight))
      → PickAll (λ v. IsFlight (λ b. Unit) v) picked
      → view (settle_picked answer picked s) ≡ settled answer.ok (picked_ticket picked) (view s)
  unfolding settle_picked finish_verdict fan_out settle
  settle-view answer none f = refl
  settle-view answer (some (v, others)) f = desk-path (go answer.ok refl) refl
    where
      go :
          (done : Bool)
          → answer.ok ≡ done
          → (k : String)
          → entry_of k (settle v answer s.hub)
            ≡ (if done
                  then (λ j. entry_of j s.hub)
                  else set_entry v.request_id
                      (some (v.live, time_or_zero v.ts))
                      (λ j. entry_of j s.hub))
                k
      go true applied k = rw applied refl
      go false refused k = rw refused (entry-restore v s.hub k f.0.timed.0 f.0.timed.1)

  abandon-view :
      (picked : Option (InFlight × List InFlight))
      → view (abandon_picked picked s) ≡ forgotten (picked_ticket picked) (view s)
  unfolding abandon_picked
  abandon-view none = refl
  abandon-view (some (v, others)) = refl

  module _ (c k d a : String) where
    entry-begun :
        (t : ℕ)
        → get k s.hub.live_verdicts ≡ some (c, d)
        → get k s.hub.live_verdicts_ts ≡ some t
        → time_of c d (entry_of k s.hub) ≡ some t
    entry-begun t bound timed = rw (bound, timed, beq_self c, beq_self d) refl

    begun_entry :
        (l : Option Binding) (ts : Option ℕ) (t : ℕ)
        → time_of c d (both l ts) ≡ some t
        → l ≡ some (c, d)
    begun_entry none ts t found = absurd (cc found)
    begun_entry (some b) none t found = absurd (cc found)
    begun_entry (some (c', d')) (some u) t found = elim (Bool-cases (c' == c && d' == d)) [
      | inl same ↦
          ap some
            (ap₂ (λ x y. (x, y)) (eq_of_beq c' c (ground arith)) (eq_of_beq d' d (ground arith)))
      | inr other ↦ absurd (cc (rw other at found))
    ]

    unclaimed :
        {e : ClearanceError}
        → contains a verdict_actions ≡ true
        → (begin_verdict c k d a s.hub).1 ≡ raise e
        → (t : Option ℕ) → time_of c d (entry_of k s.hub) ≡ t
        → t ≡ none
    unclaimed known refused none found = refl
    unclaimed known refused (some t) found =
        let bound =
          begun_entry (get k s.hub.live_verdicts) (get k s.hub.live_verdicts_ts) t found in
        absurd (cc (refused, ap (λ r. r.1) (begin_bound s.hub c k d a known bound)))

    claim-view :
        (r : Result ClearanceError InFlight)
        → contains a verdict_actions ≡ true
        → (begin_verdict c k d a s.hub).1 ≡ r
        → view (step (begin c k d a) s) ≡ claimed c k d a (time_of c d (entry_of k s.hub)) (view s)
    unfolding step waiting
    claim-view (ok v) known begun =
        let b : IsBegun s.hub c k d a v = Returned-ok _ _ (begin_lem s.hub c k d a) begun in
        let (t, timed) = timed_of_bound valid k (c, d) b.bound in
        rw (begun_state c k d a s.hub begun, b.call, entry-begun t b.bound timed)
          (desk-path (entry-take_binding k s.hub) (
            ap
              (λ ts.
                record { request_id = k; entry = ((c, d), time_or_zero ts); action = a }
                ∷ map ticket_of s.in_flight)
              timed))
    claim-view (raise e) known refused =
        let same = begin_refused c k d a valid refused in
        rw refused (desk-path (λ j. ap₂ both (same.live j) (same.times j)) refl)
        ∙ ap (λ t. claimed c k d a t (view s))
            (sym (unclaimed known refused (time_of c d (entry_of k s.hub)) refl))

    begin-view : view (step (begin c k d a) s) ≡ obey (claim c k d a) (view s)
    unfolding obey
    begin-view = elim (Bool-cases (contains a verdict_actions)) [
      | inl known ↦ rw known (claim-view (begin_verdict c k d a s.hub).1 known refl)
      | inr unknown ↦ rw unknown (unfold step begin_verdict waiting in rw unknown refl)
    ]

pub step-view :
    (own : Option String) (action : Action) (s : System)
    → IsSound (λ log k b. Unit) own s
    → view (step action s) ≡ obey (command action s) (view s)
unfolding step obey
step-view own (relay now raw) s h =
    unfold relay_reader_event in
    perform-view s h.valid now (admit s.hub raw) (record_admission (admit s.hub raw) s.log)
step-view own (cleanup now) s h =
    unfold cleanup_stale_verdicts in expire-view s h.valid now s.hub.verdict_ttl
step-view own join s h = unfold subscribe in refl
step-view own (leave key) s h = unfold unsubscribe in refl
step-view own (read key) s h = unfold deliver in refl
step-view own (mute c m) s h = unfold set_mute in mute-view s h.valid m (mute_key s.hub c)
step-view own (begin c k d a) s h = begin-view s h.valid c k d a
step-view own (finish i answer) s h =
    settle-view s h.valid answer (pick i s.in_flight)
      (PickAll-pick (λ v. IsFlight (λ b. Unit) v) i s.in_flight h.flights)
    ∙ ap (λ p. settled answer.ok p (view s)) (sym (take_at-map i s.in_flight))
step-view own (abandon i) s h =
    abandon-view s h.valid (pick i s.in_flight)
    ∙ ap (λ p. forgotten p (view s)) (sym (take_at-map i s.in_flight))
step-view own (bring_up i v) s h = start-view s h.valid i v
step-view own shut_down s h = unfold stop get in refl

run-view :
    (own : Option String) (actions : List Action) (s : System)
    → IsSound (λ log k b. Unit) own s
    → view (run actions s) ≡ obey_all (commands actions s) (view s)
unfolding run obey_all commands
run-view own [] s h = refl
run-view own (action ∷ rest) s h =
    run-view own rest (step action s) (
      step-IsSound (λ log k b. Unit) own (λ e log k b p. tt) (λ g raw e log same adm bind. tt) h
        action)
    ∙ ap (obey_all (commands rest (step action s))) (step-view own action s h)

pub view-started : (hub : Hub) → IsFresh hub → view (started hub) ≡ blank_desk
unfolding get
view-started hub fresh = desk-path (λ k. rw fresh.live_verdicts refl) refl

-- Whatever happens to a hub that starts fresh, in whatever order: its two dicts of pending verdicts
-- and the verdicts in flight are a desk that obeys the commands that the actions amount to. An event
-- that is sent on opens its request or ends its container's; only a claim that names an open request
-- with its own container and target gets a ticket and closes the request; a verdict that shield
-- refused opens it again, with its time; the clean-up ends what is older than the TTL; a stop ends
-- everything; and nothing else changes a request.
pub refined :
    (actions : List Action) (hub : Hub)
    → IsFresh hub
    → view (run actions (started hub)) ≡ obey_all (commands actions (started hub)) blank_desk
refined actions hub fresh =
    run-view hub.container actions (started hub) (started-IsSound (λ log k b. Unit) hub fresh)
    ∙ ap (obey_all (commands actions (started hub))) (view-started hub fresh)
