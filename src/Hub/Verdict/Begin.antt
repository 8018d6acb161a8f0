-- ===== src/Hub/Verdict/Begin.antt =====
-- hub/server.py: which calls of `Verdict` get past the checks, and what the others leave behind.
use terok_clearance.Common.{
  String, Bool, true, false, not, ◌||◌, Option, none, some, ◌≡◌, refl, ap, ap₂, ◌∙◌, arith,
  string_eq, ◌==◌, inl, inr, Bool-cases, eq_of_beq, beq_self, get, get-remove, get-put-remove,
  contains, Result, ok, raise, Returned,
}
use terok_clearance.Domain.Events.{verdict_actions}
use terok_clearance.Wire.Errors.{ClearanceError, unknown_request}
use terok_clearance.Hub.State.{Hub, Binding}
use terok_clearance.Hub.Invariant.{IsValid, timed_of_bound}
use text.Mathlib.TextEquality.{eq_iff}
use terok_clearance.Hub.Verdict.{
  InFlight, flight, restore, take_binding, check_tuple, begin_taken, begin_verdict,
}

-- A verdict for a live binding, with the container and the target that it is bound to.
pub record IsBegun (hub : Hub) (c k d a : String) (v : InFlight) : Type 0 where
  pub action : contains a verdict_actions ≡ true
  pub bound : get k hub.live_verdicts ≡ some (c, d)
  pub call : v ≡ flight c k d a (c, d) (get k hub.live_verdicts_ts)

both_agree : (x y : Bool) → (not x || not y) ≡ false → (x ≡ true) × (y ≡ true)
both_agree true true h = (refl, refl)
both_agree true false h = cc
both_agree false y h = cc

module _ (hub : Hub) (c k d a : String) where
  check-IsBegun :
      (live : Binding) (taken : Hub)
      → contains a verdict_actions ≡ true
      → get k hub.live_verdicts ≡ some live
      → Returned
          (IsBegun hub c k d a)
          (check_tuple (flight c k d a live (get k hub.live_verdicts_ts)) taken).1
  unfolding check_tuple
  check-IsBegun live taken known bound =
      elim (Bool-cases (not (live.0 == c) || not (live.1 == d))) [
        | inl differs ↦ rw differs tt
        | inr agrees ↦
            let (same_c, same_d) = both_agree (live.0 == c) (live.1 == d) agrees in
            let same : live ≡ (c, d) =
              ap₂ (λ x y. (x, y)) (eq_of_beq live.0 c same_c) (eq_of_beq live.1 d same_d) in
            rw agrees (record {
              action = known;
              bound = bound ∙ ap some same;
              call = ap (λ b. flight c k d a b (get k hub.live_verdicts_ts)) same;
            })
      ]

  -- A call of `Verdict` reaches the helper only with a known action, and only for a request id that
  -- is bound to exactly the container and the target that it names.
  pub begin_lem : Returned (IsBegun hub c k d a) (begin_verdict c k d a hub).1
  unfolding begin_verdict
  begin_lem = elim (Bool-cases (contains a verdict_actions)) [
    | inl known ↦ rw known (go known (get k hub.live_verdicts) refl)
    | inr unknown ↦ rw unknown tt
  ]
    where
      go :
          contains a verdict_actions ≡ true
          → (live : Option Binding) → get k hub.live_verdicts ≡ live
          → Returned
              (IsBegun hub c k d a)
              (begin_taken c k d a live (get k hub.live_verdicts_ts) (take_binding k hub)).1
      go known none bound = tt
      go known (some live) bound = check-IsBegun live (take_binding k hub) known bound

  -- A call of `Verdict` with a known action, for a request id that is bound to exactly the container
  -- and the target that it names, takes the binding and is handed to the helper with its time.
  pub begin_bound :
      contains a verdict_actions ≡ true
      → get k hub.live_verdicts ≡ some (c, d)
      → begin_verdict c k d a hub
        ≡ (take_binding k hub, ok (flight c k d a (c, d) (get k hub.live_verdicts_ts)))
  unfolding begin_verdict begin_taken check_tuple
  begin_bound known bound = rw (known, bound, beq_self c, beq_self d)

  pub begin_unknown :
      contains a verdict_actions ≡ true
      → get k hub.live_verdicts ≡ none
      → (begin_verdict c k d a hub).1 ≡ raise (unknown_request k)
  unfolding begin_verdict begin_taken
  begin_unknown known absent = rw (known, absent)

-- Both hubs bind the same request ids to the same targets, with the same times.
pub record SameBindings (h g : Hub) : Type 0 where
  pub live : (j : String) → get j h.live_verdicts ≡ get j g.live_verdicts
  pub times : (j : String) → get j h.live_verdicts_ts ≡ get j g.live_verdicts_ts

-- What a verdict took, it puts back.
pub restore-take :
    (c k d a : String) (live : Binding) (hub : Hub)
    → IsValid hub
    → get k hub.live_verdicts ≡ some live
    → SameBindings
        (restore (flight c k d a live (get k hub.live_verdicts_ts)) (take_binding k hub))
        hub
unfolding restore take_binding
restore-take c k d a live hub valid bound =
    let (t, timed) = timed_of_bound valid k live bound in
    record {
      live = λ j. get-put-remove k j live hub.live_verdicts bound;
      times = λ j. rw timed (get-put-remove k j t hub.live_verdicts_ts timed);
    }

module _ (c k d a : String) {hub : Hub} (valid : IsValid hub) where
  abbrev IsUnchanged : Hub × Result ClearanceError InFlight → Type 0
  IsUnchanged (after, raise e) = SameBindings after hub
  IsUnchanged (after, ok v) = Unit

  check_refused :
      (live : Binding)
      → get k hub.live_verdicts ≡ some live
      → IsUnchanged
          (check_tuple (flight c k d a live (get k hub.live_verdicts_ts)) (take_binding k hub))
  unfolding check_tuple
  check_refused live bound = elim (Bool-cases (not (live.0 == c) || not (live.1 == d))) [
    | inl differs ↦ rw differs (restore-take c k d a live hub valid bound)
    | inr agrees ↦ rw agrees tt
  ]

  take_absent : get k hub.live_verdicts ≡ none → SameBindings (take_binding k hub) hub
  unfolding take_binding
  take_absent absent = record {
    live = λ j. ground (arith, get-remove k j hub.live_verdicts, eq_iff k j, absent);
    times = λ j.
        ground (arith, get-remove k j hub.live_verdicts_ts, eq_iff k j, absent, valid.same_keys k);
  }

  begin-IsUnchanged : IsUnchanged (begin_verdict c k d a hub)
  unfolding begin_verdict
  begin-IsUnchanged = elim (Bool-cases (contains a verdict_actions)) [
    | inl known ↦ rw known (go (get k hub.live_verdicts) refl)
    | inr unknown ↦ rw unknown (record { live = λ j. refl; times = λ j. refl })
  ]
    where
      go :
          (live : Option Binding)
          → get k hub.live_verdicts ≡ live
          → IsUnchanged (begin_taken c k d a live (get k hub.live_verdicts_ts) (take_binding k hub))
      go none absent = take_absent absent
      go (some live) bound = check_refused live bound

  -- A call that is refused, for its action, its request id or its target, leaves every binding of a
  -- valid hub and its time as they were, so that the verdict that is meant can still be given.
  pub begin_refused :
      {e : ClearanceError}
      → (begin_verdict c k d a hub).1 ≡ raise e
      → SameBindings (begin_verdict c k d a hub).0 hub
  begin_refused {e} refused = go (begin_verdict c k d a hub) begin-IsUnchanged refused
    where
      go :
          (r : Hub × Result ClearanceError InFlight)
          → IsUnchanged r
          → r.1 ≡ raise e
          → SameBindings r.0 hub
      go (after, raise x) h refused = h
      go (after, ok v) h refused = absurd (ground arith)
