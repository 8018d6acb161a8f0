-- ===== src/Hub/Verdict/Race.antt =====
-- hub/server.py: a verdict that waits while its container exits or loses its shield.
use terok_clearance.Common.{
  ℕ, String, true, false, ◌||◌, none, some, ◌≡◌, sym, ap, ◌∙◌, subst, arith, string_eq, ◌==◌, inl,
  inr, Bool-cases, beq_self, get, get-put, get-remove_self, ok, Returned-ok,
}
use text.Mathlib.TextEquality.{eq_iff}
use terok_clearance.Domain.Events.{ClearanceEvent}
use terok_clearance.Hub.Payload.{Fields}
use terok_clearance.Hub.State.{Hub}
use terok_clearance.Hub.Invariant.{IsValid}
use terok_clearance.Hub.Relay.{admitted, admit, relay_reader_event, fan_out, binds, retires}
use terok_clearance.Hub.Relay.Bindings.{relay_bindings, bound_after}
use terok_clearance.Hub.Preserved.{begin-IsValid}
use terok_clearance.Hub.Verdict.{
  InFlight, Answer, restore, take_binding, begin_verdict, settle, finish_verdict,
}
use terok_clearance.Hub.Verdict.Begin.{IsBegun, begin_lem}
use terok_clearance.Hub.Verdict.Outcome.{begun_state}

retires_unbound : (e : ClearanceEvent) → retires e ≡ true → binds e ≡ false
retires_unbound e h = elim (Bool-cases (e.type == "connection_blocked")) [
  | inl prompt ↦ absurd ((go e.type ((eq_iff e.type "connection_blocked").0 prompt)) h)
  | inr other ↦ rw other
]
  where
    go :
        (t : String)
        → t ≡ "connection_blocked"
        → (t == "shield_down" || t == "shield_disengaged" || t == "container_exited") ≡ true
        → ⊥
    go t e =
        subst
          (λ x.
            (x == "shield_down" || x == "shield_disengaged" || x == "container_exited") ≡ true → ⊥)
          (sym e) (λ h. ground arith)

module _ (c k d a : String) {hub : Hub} (valid : IsValid hub) {v : InFlight}
    (begun : (begin_verdict c k d a hub).1 ≡ ok v) where
  -- A verdict waits for the helper; an event that ends its container's bindings, as an exit or a
  -- shield drop, leaves its request id unbound; shield then refuses the verdict, and the request
  -- id is bound again to the container and target of the call.
  pub refusal_revives :
      (now : ℕ) (raw : Fields) (e : ClearanceEvent) (answer : Answer)
      → admit (begin_verdict c k d a hub).0 raw ≡ admitted e
      → retires e ≡ true
      → answer.ok ≡ false
      → (get k (relay_reader_event now raw (begin_verdict c k d a hub).0).0.live_verdicts ≡ none)
        × (get k
              (finish_verdict v answer
                (relay_reader_event now raw (begin_verdict c k d a hub).0).0).0.live_verdicts
            ≡ some (c, d))
  refusal_revives now raw e answer adm ends refused = (
    relay_bindings now raw (begin_verdict c k d a hub).0 k (begin-IsValid valid c k d a)
        ∙ rw adm gone,
    revived (relay_reader_event now raw (begin_verdict c k d a hub).0).0,
  )
    where
      taken : get k (begin_verdict c k d a hub).0.live_verdicts ≡ none
      taken =
          rw (ap (λ x. x.0) (begun_state c k d a hub begun))
            (unfold take_binding in get-remove_self k hub.live_verdicts)

      gone : bound_after e k (get k (begin_verdict c k d a hub).0.live_verdicts) ≡ none
      gone = rw (taken, retires_unbound e ends, ends)

      revived : (g : Hub) → get k (finish_verdict v answer g).0.live_verdicts ≡ some (c, d)
      revived g =
          let b : IsBegun hub c k d a v = Returned-ok _ _ (begin_lem hub c k d a) begun in
          rw b.call (
            unfold finish_verdict fan_out settle restore in
            rw refused (get-put k k (c, d) g.live_verdicts ∙ (rw (beq_self k))))
