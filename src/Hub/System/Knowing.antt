-- ===== src/Hub/System/Knowing.antt =====
-- What is known of the bindings and of the verdicts in flight between any two steps.
use terok_clearance.Common.{
  ℕ, zero, suc, String, true, Option, none, some, List, [], ◌∷◌, ◌≡◌, string_eq, All, Entries,
  contains,
}
use terok_clearance.Domain.Events.{ClearanceEvent, verdict_actions}
use terok_clearance.Hub.State.{Binding}
use terok_clearance.Hub.Invariant.{IsValid}
use terok_clearance.Hub.Verdict.{InFlight}
use terok_clearance.Hub.System.{System, pick}

-- What may be known of a binding by what was fanned out so far.
abbrev pub Knowledge : Type 1
Knowledge = List ClearanceEvent → String → Binding → Type 0

-- A verdict in flight is for a live binding as it was, with a known action.
pub record IsFlight (b : Binding → Type 0) (v : InFlight) : Type 0 where
  pub known : b v.live
  pub container : v.live.0 ≡ v.container
  pub dest : v.live.1 ≡ v.dest
  pub action : contains v.action verdict_actions ≡ true
  pub timed : (t : ℕ) × (v.ts ≡ some t)

abbrev pub PickAll : (InFlight → Type 0) → Option (InFlight × List InFlight) → Type 0
PickAll F none = Unit
PickAll F (some (v, others)) = F v × All F others

module _ (F : InFlight → Type 0) where
  pick_later :
      (v : InFlight) (picked : Option (InFlight × List InFlight))
      → F v
      → PickAll F picked
      → PickAll F (elim picked [ none ↦ none | some (w, ws) ↦ some (w, v ∷ ws) ])
  pick_later v none f g = tt
  pick_later v (some (w, ws)) f g = (g.0, (f, g.1))

  pub PickAll-pick : (i : ℕ) (vs : List InFlight) → All F vs → PickAll F (pick i vs)
  unfolding pick
  PickAll-pick i [] h = tt
  PickAll-pick zero (v ∷ vs) h = h
  PickAll-pick (suc i) (v ∷ vs) h = pick_later v (pick i vs) h.0 (PickAll-pick i vs h.1)

pub record IsSound (P : Knowledge) (own : Option String) (s : System) : Type 0 where
  pub valid : IsValid s.hub
  pub container : s.hub.container ≡ own
  pub live : Entries (P s.log) s.hub.live_verdicts
  pub flights : All (λ v. IsFlight (P s.log v.request_id) v) s.in_flight
