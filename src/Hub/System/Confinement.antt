-- ===== src/Hub/System/Confinement.antt =====
-- hub/server.py: a hub that is built for one container, along every schedule.
use terok_clearance.Common.{
  String, true, some, List, ◌∷◌, ◌≡◌, arith, string_eq, ok, All, All-imp, ap, ◌∙◌, sym, subst,
  Entries-get, Returned-ok,
}
use terok_clearance.Domain.Events.{ClearanceEvent}
use terok_clearance.Hub.Payload.{Fields}
use terok_clearance.Hub.State.{Hub}
use terok_clearance.Hub.Relay.{admit, admitted, binds, event_target, stamp}
use terok_clearance.Hub.Relay.Admitted.{admitted_lem}
use terok_clearance.Hub.Verdict.{InFlight, begin_verdict}
use terok_clearance.Hub.Verdict.Begin.{IsBegun, begin_lem}
use terok_clearance.Hub.System.{Action, run, started}
use terok_clearance.Hub.System.Knowing.{IsSound, Knowledge}
use terok_clearance.Hub.System.Soundness.{run-IsSound}
use terok_clearance.Hub.Invariant.{IsFresh}
use terok_clearance.Hub.System.Fresh.{started-IsSound}

pub stamped-container :
    (hub : Hub) (own : String) (e : ClearanceEvent)
    → hub.container ≡ some own
    → (stamp hub e).container ≡ own
unfolding stamp
stamped-container hub own e h = ground arith

-- Every binding is of the hub's own container.
abbrev pub IsOwn : String → Knowledge
IsOwn own log k b = b.0 ≡ own

IsOwn-admitted :
    (own : String) (hub : Hub) (raw : Fields) (e : ClearanceEvent) (log : List ClearanceEvent)
    → hub.container ≡ some own
    → admit hub raw ≡ admitted e
    → binds e ≡ true
    → IsOwn own (e ∷ log) e.request_id (e.container, event_target e)
IsOwn-admitted own hub raw e log same adm bind =
    let a = admitted_lem hub raw adm in
    ap (λ x. x.container) a.stamped ∙ stamped-container hub own a.translated same

run-IsOwn :
    (own : String) (actions : List Action) (hub : Hub)
    → IsFresh hub
    → hub.container ≡ some own
    → IsSound (IsOwn own) (some own) (run actions (started hub))
run-IsOwn own actions hub fresh serves =
    run-IsSound (IsOwn own) (some own) (λ e log k b p. p) (IsOwn-admitted own) actions
      (subst (λ o. IsSound (IsOwn own) o (started hub)) serves
        (started-IsSound (IsOwn own) hub fresh))

-- A hub that is built for one container and starts fresh never issues a verdict for another,
-- whatever happens: not in a call that it lets through now, and not in one that is in flight.
pub confined :
    (own : String) (actions : List Action) (hub : Hub) (c k d a : String) {v : InFlight}
    → IsFresh hub
    → hub.container ≡ some own
    → (begin_verdict c k d a (run actions (started hub)).hub).1 ≡ ok v
    → (v.container ≡ own) × All (λ w. w.container ≡ own) (run actions (started hub)).in_flight
confined own actions hub c k d a fresh serves begun =
    let after = (run actions (started hub)).hub in
    let sound = run-IsOwn own actions hub fresh serves in
    let b : IsBegun after c k d a _ = Returned-ok _ _ (begin_lem after c k d a) begun in
    let bound : c ≡ own =
      Entries-get (λ k b. b.0 ≡ own) k (c, d) after.live_verdicts sound.live b.bound in
    (
      ap (λ v. v.container) b.call ∙ bound,
      All-imp (λ w f. sym f.container ∙ f.known) (run actions (started hub)).in_flight
          sound.flights,
    )
