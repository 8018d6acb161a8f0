-- ===== src/Hub/System/Authorisation.antt =====
-- hub/server.py: the binding that `_apply_verdict` checks, along every schedule.
use terok_clearance.Common.{
  String, true, Option, List, [], ◌∷◌, ◌≡◌, ◌⊎◌, inl, inr, refl, string_eq, and_true, eq_of_beq,
  contains, Returned-ok, Entries-get, ap, ok,
}
use terok_clearance.Domain.Events.{ClearanceEvent, verdict_actions}
use terok_clearance.Hub.Payload.{Fields}
use terok_clearance.Hub.State.{Hub, Binding}
use terok_clearance.Hub.Relay.{admit, admitted, binds, event_target}
use terok_clearance.Hub.Verdict.{InFlight, begin_verdict}
use terok_clearance.Hub.Verdict.Begin.{IsBegun, begin_lem}
use terok_clearance.Hub.System.{Action, run, started}
use terok_clearance.Hub.System.Knowing.{IsSound}
use terok_clearance.Hub.System.Soundness.{run-IsSound}
use terok_clearance.Hub.Invariant.{IsFresh}
use terok_clearance.Hub.System.Fresh.{started-IsSound}

-- The event asks about this request id, container and target.
pub record IsPrompt (k : String) (b : Binding) (e : ClearanceEvent) : Type 0 where
  pub type : e.type ≡ "connection_blocked"
  pub request_id : e.request_id ≡ k
  pub container : e.container ≡ b.0
  pub target : event_target e ≡ b.1

-- Such an event is in the log.
abbrev pub Prompted : List ClearanceEvent → String → Binding → Type 0
Prompted [] k b = ⊥
Prompted (e ∷ log) k b = IsPrompt k b e ⊎ Prompted log k b

Prompted-admitted :
    (hub : Hub) (raw : Fields) (e : ClearanceEvent) (log : List ClearanceEvent)
    (own : Option String)
    → hub.container ≡ own
    → admit hub raw ≡ admitted e
    → binds e ≡ true
    → Prompted (e ∷ log) e.request_id (e.container, event_target e)
Prompted-admitted hub raw e log own same adm bind = inl (record {
  type = eq_of_beq e.type "connection_blocked" (and_true _ _ bind).0;
  request_id = refl;
  container = refl;
  target = refl;
})

pub run-Prompted :
    (actions : List Action) (hub : Hub)
    → IsFresh hub
    → IsSound Prompted hub.container (run actions (started hub))
run-Prompted actions hub fresh =
    run-IsSound Prompted hub.container (λ e log k b p. inr p)
      (λ h raw e log same. Prompted-admitted h raw e log hub.container same) actions
      (started-IsSound Prompted hub fresh)

-- Whatever happened since a hub started that had heard nothing, a `Verdict` call that gets past
-- the checks names an action of the vocabulary, and a request id, container and target that a
-- `connection_blocked` event fanned out since then asked about; and it is handed on as it was
-- made.
pub authorised :
    (actions : List Action) (hub : Hub) (c k d a : String) {v : InFlight}
    → IsFresh hub
    → (begin_verdict c k d a (run actions (started hub)).hub).1 ≡ ok v
    → Prompted (run actions (started hub)).log k (c, d)
      × (contains a verdict_actions ≡ true)
      × (v.container ≡ c)
      × (v.request_id ≡ k)
      × (v.dest ≡ d)
      × (v.action ≡ a)
authorised actions hub c k d a fresh begun =
    let after = (run actions (started hub)).hub in
    let sound = run-Prompted actions hub fresh in
    let b : IsBegun after c k d a _ = Returned-ok _ _ (begin_lem after c k d a) begun in
    (
      Entries-get _ k (c, d) after.live_verdicts sound.live b.bound,
      b.action,
      ap (λ v. v.container) b.call,
      ap (λ v. v.request_id) b.call,
      ap (λ v. v.dest) b.call,
      ap (λ v. v.action) b.call,
    )
