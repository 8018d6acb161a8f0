-- ===== src/Hub/Verdict/Outcome.antt =====
-- hub/server.py: what becomes of a verdict that the helper answered.
use terok_clearance.Common.{
  String, true, false, none, ◌≡◌, sym, ap, ◌∙◌, string_eq, ◌==◌, get, get-remove, get-remove_self,
  contains, ok, raise, Returned-ok, if◌then◌else◌,
}
use terok_clearance.Domain.Events.{verdict_actions}
use terok_clearance.Wire.Errors.{unknown_request}
use terok_clearance.Hub.State.{Hub}
use terok_clearance.Hub.Invariant.{IsValid}
use terok_clearance.Hub.Relay.{fan_out}
use terok_clearance.Hub.Verdict.{
  InFlight, Answer, take_binding, begin_verdict, settle, finish_verdict,
}
use terok_clearance.Hub.Verdict.Begin.{
  IsBegun, SameBindings, begin_lem, begin_bound, begin_unknown, restore-take,
}

-- The state that a call leaves which reaches the helper.
pub begun_state :
    (c k d a : String) (hub : Hub) {v : InFlight}
    → (begin_verdict c k d a hub).1 ≡ ok v
    → begin_verdict c k d a hub ≡ (take_binding k hub, ok v)
begun_state c k d a hub begun =
    let b : IsBegun hub c k d a _ = Returned-ok _ _ (begin_lem hub c k d a) begun in
    begin_bound hub c k d a b.action b.bound ∙ ap (λ w. (take_binding k hub, ok w)) (sym b.call)

module _ (c k d a : String) {hub : Hub} (valid : IsValid hub) {v : InFlight}
    (begun : (begin_verdict c k d a hub).1 ≡ ok v) where
  -- While a verdict waits for the helper, with nothing else in between, any second call with a
  -- known action on its request id is refused as unknown: a double click runs shield once.
  pub double_click :
      (c' d' a' : String)
      → contains a' verdict_actions ≡ true
      → (begin_verdict c' k d' a' (begin_verdict c k d a hub).0).1 ≡ raise (unknown_request k)
  double_click c' d' a' known =
      let taken = ap (λ x. x.0) (begun_state c k d a hub begun) in
      rw taken (
        begin_unknown (take_binding k hub) c' k d' a' known
          (unfold take_binding in get-remove_self k hub.live_verdicts))

  -- After a verdict was let through on a valid hub and shield refused it, with nothing else in
  -- between, every binding and its time are as before the call, so that a retry reaches shield
  -- again.
  pub refused_retry :
      (answer : Answer)
      → answer.ok ≡ false
      → SameBindings (finish_verdict v answer (begin_verdict c k d a hub).0).0 hub
  unfolding finish_verdict fan_out settle
  refused_retry answer refused =
      let taken = ap (λ x. x.0) (begun_state c k d a hub begun) in
      let b : IsBegun hub c k d a v = Returned-ok _ _ (begin_lem hub c k d a) begun in
      let back = restore-take c k d a (c, d) hub valid b.bound in
      rw (taken, refused, b.call) (record { live = back.live; times = back.times })

  -- After a verdict was let through and shield applied it, with nothing else in between, its
  -- request id is bound no more, and every other binding is as before the call.
  pub applied_once :
      (answer : Answer)
      → answer.ok ≡ true
      → (j : String)
      → get j (finish_verdict v answer (begin_verdict c k d a hub).0).0.live_verdicts
        ≡ (if k == j then none else get j hub.live_verdicts)
  unfolding finish_verdict fan_out settle take_binding
  applied_once answer applied j =
      let taken = ap (λ x. x.0) (begun_state c k d a hub begun) in
      rw (taken, applied) (get-remove k j hub.live_verdicts)
