-- ===== src/Hub/Serve/Applied.antt =====
-- hub/server.py, verdict/client.py, verdict/interface.py and verdict/server.py: from a reader's report to
-- the run of shield and the reply of Verdict.
use terok_clearance.Common.{
  ℕ, zero, suc, String, Bool, true, false, none, some, List, [], ◌∷◌, string_eq, get, contains,
  truthy, concat, strip, take, Result, ok, raise, ◌>>=◌, ◌≡◌, refl, sym, ap, ◌∙◌, beq_self,
}
use terok_clearance.Common.Int.{pos, negsuc}
use terok_clearance.Common.Utf8.{decode}
use terok_clearance.Domain.Events.{ClearanceEvent, verdict_actions}
use terok_clearance.Wire.Errors.{shield_cli_failed}
use terok_clearance.Wire.Interface.{verdict_call}
use terok_clearance.Hub.State.{Hub}
use terok_clearance.Hub.Payload.{Fields}
use terok_clearance.Hub.Invariant.{IsValid}
use terok_clearance.Hub.Relay.{event_target, relay_reader_event, admitted, admit}
use terok_clearance.Hub.Relay.Bindings.{relay_bindings, bound_by}
use terok_clearance.Hub.Verdict.{
  InFlight, flight, finish_verdict, VerdictError, typed_error, after_helper, await_helper,
  apply_verdict, take_binding,
}
use terok_clearance.Hub.Verdict.Begin.{begin_bound}
use terok_clearance.Hub.Serve.{apply_call, answer_of, hub_interface}
use terok_clearance.Verdict.Client.{
  VerdictClient, CallError, os_error, HelperReply, Attempt, ensure_connected, disconnect, stderr_of,
  try_apply, first_round, second_round, apply,
}
use terok_clearance.Verdict.Shield.{
  Fate, not_spawned, timed_out, exited, report, run_shield, apply_reply,
}
use terok_clearance.Verdict.Server.{VerdictServer, apply_shield}

-- Whether a call of the verdict client reaches the helper.
pub data Seen : Type 0 where
  ran : Seen
  unreachable : String → Seen

-- How the two attempts of a call may go: over the client's connection or a new one, again after an
-- `OSError`, or not at all after a second one. The helper gives `reply`.
pub data Route (client : VerdictClient) (first second : Attempt) (c d a : String)
    (reply : HelperReply) : Seen → Type 0 where
  live :
      (n : ℕ)
      → client.proxy ≡ some n
      → first.call c d a ≡ ok reply
      → Route client first second c d a reply ran
  opened :
      (n : ℕ)
      → client.proxy ≡ none
      → first.connect ≡ ok n
      → first.call c d a ≡ ok reply
      → Route client first second c d a reply ran
  again :
      (n : ℕ) (e : String)
      → (try_apply first c d a client).1 ≡ raise (os_error e)
      → second.connect ≡ ok n
      → second.call c d a ≡ ok reply
      → Route client first second c d a reply ran
  cut :
      (n : ℕ) (e f : String)
      → (try_apply first c d a client).1 ≡ raise (os_error e)
      → second.connect ≡ ok n
      → second.call c d a ≡ raise (os_error f)
      → Route client first second c d a reply (unreachable f)
  gone :
      (e f : String)
      → (try_apply first c d a client).1 ≡ raise (os_error e)
      → second.connect ≡ raise (os_error f)
      → Route client first second c d a reply (unreachable f)

-- What the client then answers.
abbrev pub told : HelperReply → Seen → Bool × String
told reply ran = (reply.ok, stderr_of reply)
told reply (unreachable e) = (false, concat "verdict helper unreachable: " e)

abbrev Ended : Type 0
Ended = VerdictClient × Result CallError (Bool × String)

module _ (client : VerdictClient) (first second : Attempt) (c d a : String)
    (reply : HelperReply) where
  abbrev retry : VerdictClient → Ended
  retry x = second_round (try_apply second c d a x)

  retried :
      (r : Ended) {e : String}
      → r.1 ≡ raise (os_error e)
      → first_round retry r ≡ retry (disconnect r.0)
  unfolding first_round
  retried (x, o) h = ap (λ (p : Result CallError (Bool × String)). first_round retry (x, p)) h

  apply-again :
      {e : String} {answer : Bool × String}
      → (try_apply first c d a client).1 ≡ raise (os_error e)
      → ((x : VerdictClient) → (retry (disconnect x)).1 ≡ ok answer)
      → (apply first second c d a client).1 ≡ ok answer
  unfolding apply
  apply-again failed retrying =
      ap (λ (r : Ended). r.1) (retried (try_apply first c d a client) failed)
      ∙ retrying (try_apply first c d a client).0

  apply-told :
      {seen : Seen}
      → Route client first second c d a reply seen
      → (apply first second c d a client).1 ≡ ok (told reply seen)
  unfolding apply try_apply ensure_connected first_round second_round disconnect
  apply-told (live n held replied) = rw (held, replied) refl
  apply-told (opened n lost connect replied) = rw (lost, connect, replied) refl
  apply-told (again n e failed connect replied) =
      apply-again failed (λ x. rw (connect, replied) refl)
  apply-told (cut n e f failed connect broken) = apply-again failed (λ x. rw (connect, broken) refl)
  apply-told (gone e f failed refused) = apply-again failed (λ x. rw refused refl)

-- What a verdict on which shield meets this fate comes to: applied where it exits with code 0, and
-- otherwise the error with what there is to say of it.
abbrev pub verdict_on : String → Fate → Seen → Result VerdictError Bool
verdict_on action (exited (pos zero) output) ran = ok true
verdict_on action (exited (pos (suc n)) output) ran =
    raise (typed_error (shield_cli_failed action (strip (decode (take 512 output)))))
verdict_on action (exited (negsuc n) output) ran =
    raise (typed_error (shield_cli_failed action (strip (decode (take 512 output)))))
verdict_on action timed_out ran =
    raise (typed_error (shield_cli_failed action "timed out after 10.0s"))
verdict_on action (not_spawned e) ran =
    raise (typed_error (shield_cli_failed action (concat "spawn failed: " e)))
verdict_on action fate (unreachable e) =
    raise (typed_error (shield_cli_failed action (concat "verdict helper unreachable: " e)))

abbrev reply_to : Fate → HelperReply
reply_to fate = record { ok = (report fate).0; stderr = some (report fate).1 }

after-told :
    (v : InFlight) (hub : Hub) (fate : Fate) (seen : Seen)
    → (after_helper v
        (ok (told (reply_to fate) seen) >>= λ r. ok (record { ok = r.0; stderr = r.1 }))
        hub).1
      ≡ verdict_on v.action fate seen
unfolding after_helper finish_verdict report
after-told v hub (exited (pos zero) output) ran = refl
after-told v hub (exited (pos (suc n)) output) ran = refl
after-told v hub (exited (negsuc n) output) ran = refl
after-told v hub timed_out ran = refl
after-told v hub (not_spawned e) ran = refl
after-told v hub (exited (pos zero) output) (unreachable e) = refl
after-told v hub (exited (pos (suc n)) output) (unreachable e) = refl
after-told v hub (exited (negsuc n) output) (unreachable e) = refl
after-told v hub timed_out (unreachable e) = refl
after-told v hub (not_spawned f) (unreachable e) = refl

module _ (spawn : String → List String → Fate) (helper : VerdictServer) (binary : String) where
  apply_call_installed :
      (c d a : String)
      → helper.shield_binary ≡ some binary
      → truthy binary ≡ true
      → apply_call spawn helper c d a ≡ some (reply_to (spawn binary (a ∷ c ∷ d ∷ [])))
  unfolding apply_call apply_shield run_shield apply_reply
  apply_call_installed c d a installed named = rw (installed, named) refl

  -- A valid hub admits a reader's report of a blocked connection that has a request id, and the
  -- helper has a shield binary. A call of Verdict over the hub's interface, with nothing else in
  -- between, with that id, the event's container and target and the action allow or deny then comes
  -- to what shield does on the action, the container and the target, where the verdict client
  -- reaches the helper at once, or at its second attempt after an OSError: the reply is true if
  -- shield exits with code 0, and otherwise the error ShieldCliFailed with the action and shield's
  -- stderr, capped, or with the text of the time-out or of the failure to spawn. Where the second
  -- attempt meets an OSError too, the error says that the helper is unreachable, and why.
  pub verdict_call-report :
      (event : ClearanceEvent) (action : String) (hub : Hub) (time : ℕ) (raw : Fields)
      (client : VerdictClient) (first second : Attempt) {reply : HelperReply} {seen : Seen}
      → IsValid hub
      → admit hub raw ≡ admitted event
      → event.type ≡ "connection_blocked"
      → truthy event.request_id ≡ true
      → contains action verdict_actions ≡ true
      → helper.shield_binary ≡ some binary
      → truthy binary ≡ true
      → apply_call spawn helper event.container (event_target event) action ≡ some reply
      → Route client first second event.container (event_target event) action reply seen
      → (verdict_call
          (hub_interface (answer_of client first second))
          event.container
          event.request_id
          (event_target event)
          action
          (relay_reader_event time raw hub).0).1
        ≡ verdict_on action (spawn binary (action ∷ event.container ∷ event_target event ∷ [])) seen
  unfolding verdict_call hub_interface apply_verdict await_helper answer_of
  verdict_call-report event action hub time raw client first second {reply} {seen} valid admission
        blocked named known installed able replied route =
      ap (λ r. (await_helper (answer_of client first second) r.0 r.1).1)
        (begin_bound relayed event.container event.request_id target action known bound)
      ∙ ap
          (λ (o : Result CallError (Bool × String)).
            (after_helper sent (o >>= λ r. ok (record { ok = r.0; stderr = r.1 })) taken).1)
          (apply-told client first second event.container target action reply route)
      ∙ ap
          (λ (p : HelperReply).
            (after_helper sent (ok (told p seen) >>= λ r. ok (record { ok = r.0; stderr = r.1 }))
              taken).1)
          same
      ∙ after-told sent taken fate seen
    where
      relayed : Hub
      relayed = (relay_reader_event time raw hub).0

      target : String
      target = event_target event

      taken : Hub
      taken = take_binding event.request_id relayed

      fate : Fate
      fate = spawn binary (action ∷ event.container ∷ target ∷ [])

      same : reply ≡ reply_to fate
      same =
          ap (λ o. elim o [ none ↦ reply | some p ↦ p ])
            (sym replied ∙ apply_call_installed event.container target action installed able)

      sent : InFlight
      sent =
          flight event.container event.request_id target action (event.container, target)
            (get event.request_id relayed.live_verdicts_ts)

      bound : get event.request_id relayed.live_verdicts ≡ some (event.container, target)
      bound =
          relay_bindings time raw hub event.request_id valid
          ∙ ap (λ a. bound_by a event.request_id (get event.request_id hub.live_verdicts)) admission
          ∙ rw (blocked, named, beq_self event.request_id) refl
