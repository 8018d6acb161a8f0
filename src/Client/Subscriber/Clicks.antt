-- ===== src/Client/Subscriber/Clicks.antt =====
-- client/subscriber.py: from a blocked connection to the prompt, the press of a button and the
-- verdict, which hub/server.py then checks.
use terok_clearance.Common.{
  ℕ, ◌+◌, String, true, Option, none, some, List, [], ◌∷◌, ◌++◌, string_eq, get, contains, truthy,
  ◌≡◌, refl, ap, ◌∙◌, ok, beq_self,
}
use mathlib.Core.List.{append-nil}
use terok_clearance.Domain.Events.{ClearanceEvent, verdict_actions}
use terok_clearance.Hub.State.{Hub}
use terok_clearance.Hub.Payload.{Fields}
use terok_clearance.Hub.Invariant.{IsValid}
use terok_clearance.Hub.Relay.{event_target, relay_reader_event, admitted, admit}
use terok_clearance.Hub.Relay.Bindings.{relay_bindings, bound_by}
use terok_clearance.Hub.Verdict.{begin_verdict, flight}
use terok_clearance.Hub.Verdict.Begin.{begin_bound}
use terok_clearance.Client.Popups.{Popup, block_popup}
use terok_clearance.Client.Pending.{PendingBlock, notify_blocked}
use terok_clearance.Client.Subscriber.{
  Coroutine, send_verdict, notify, on_action, verdict, Outcome, returned, begin_task, resume,
  routing, live_block_on, handle_connection_blocked, record_block, prompt,
}
use terok_clearance.Client.Subscriber.Dispatch.{on_event, enabled, foreground}
use terok_clearance.Client.Subscriber.Loop.{
  EventLoop, receive, handled, run_task, press, run, step, pick, receive_event, react, begin_picked,
}

-- An event loop at rest, whose next event is a blocked connection that is shown.
pub record Prompts (event : ClearanceEvent) (l : EventLoop) : Type 0 where
  pub idle : l.handler ≡ none
  pub unscheduled : l.scheduled ≡ []
  pub blocked : event.type ≡ "connection_blocked"
  pub shown : enabled notify_blocked l.subscriber ≡ true
  pub targeted : truthy (event_target event) ≡ true

module _ (now : String) (event : ClearanceEvent) (l : EventLoop) (h : Prompts event l) where
  pub on_blocked : on_event now event l.subscriber ≡ record {
    dispatched = [];
    hooks = [];
    turn =
        prompt now event
          (event_target event)
          (live_block_on event.container (event_target event) l.subscriber.pending)
          l.subscriber;
  }
  unfolding on_event handle_connection_blocked
  on_blocked = rw (h.blocked, h.shown, h.targeted) refl

  abbrev pub target : String
  target = event_target event

  abbrev pub prior : Option PendingBlock
  prior = live_block_on event.container target l.subscriber.pending

  -- The event loop once the prompt's `notify` is done.
  abbrev pub answered : Outcome → EventLoop
  answered outcome = run (receive now event ∷ handled outcome ∷ []) l

  abbrev prompted : Option PendingBlock → EventLoop
  prompted o = react (foreground (prompt now event target o l.subscriber)) l

  step-receive : step (receive now event) l ≡ prompted prior
  unfolding step
  step-receive = ap (λ r. receive_event now event r l) h.idle ∙ ap (λ r. react r l) on_blocked

  answered_lem : (outcome : Outcome) → answered outcome ≡ step (handled outcome) (prompted prior)
  unfolding run
  answered_lem outcome = ap (step (handled outcome)) step-receive

  -- The press of a button of the prompt, and the first turn of the task that it schedules.
  abbrev pub press_on : String → EventLoop → EventLoop
  press_on action = run (press (routing event target) action ∷ run_task 0 ∷ [])

  press_on-calls :
      (action : String) (m : EventLoop)
      → m.scheduled ≡ []
      → (press_on action m).calls ≡ verdict event.container event.request_id target action ∷ m.calls
  unfolding run step pick begin_task
  press_on-calls action m none_scheduled =
      ap (λ cs. (begin_picked (pick 0 (cs ++ (task ∷ []))) (dispatched cs)).calls) none_scheduled
    where
      task : Coroutine
      task = send_verdict event.container event.request_id target action

      dispatched : List Coroutine → EventLoop
      dispatched cs = record m { scheduled = cs ++ (task ∷ []) }

  -- The notification that the prompt asks for.
  abbrev pub shown_popup : Option PendingBlock → Popup
  shown_popup none = block_popup event target 1 now 0
  shown_popup (some p) = block_popup event target (p.count + 1) p.first_seen p.notification_id

  prompted-rest :
      (nid : ℕ) (o : Option PendingBlock)
      → ((step (handled (returned nid)) (prompted o)).scheduled ≡ [])
        × ((step (handled (returned nid)) (prompted o)).calls
            ≡ on_action nid (routing event target) ∷ notify (shown_popup o) ∷ l.calls)
  unfolding step resume record_block
  prompted-rest nid none = (append-nil l.scheduled ∙ h.unscheduled, refl)
  prompted-rest nid (some p) = (append-nil l.scheduled ∙ h.unscheduled, refl)

  pressed :
      (nid : ℕ) (action : String)
      → (press_on action (answered (returned nid))).calls
        ≡ verdict event.container event.request_id target action
          ∷ on_action nid (routing event target)
          ∷ notify (shown_popup prior)
          ∷ l.calls
  pressed nid action =
      let rest = prompted-rest nid prior in
      let same = answered_lem (returned nid) in
      press_on-calls action (answered (returned nid))
        (ap (λ (m : EventLoop). m.scheduled) same ∙ rest.0)
      ∙ ap (λ cs. verdict event.container event.request_id target action ∷ cs)
          (ap (λ (m : EventLoop). m.calls) same ∙ rest.1)

  -- A valid hub admits a reader's report of a blocked connection whose request id and target are not
  -- empty, and a subscriber that is opted in to these, with no handler or task under way, shows it.
  -- The press of an allow or deny button then makes the subscriber send a verdict, on the event's
  -- container, request and target, that the hub lets through: it finds the binding that it took for
  -- the event.
  pub pressed-IsBound :
      (nid : ℕ) (action : String) (hub : Hub) (time : ℕ) (raw : Fields)
      → IsValid hub
      → admit hub raw ≡ admitted event
      → truthy event.request_id ≡ true
      → contains action verdict_actions ≡ true
      → ((press_on action (answered (returned nid))).calls
          ≡ verdict event.container event.request_id target action
            ∷ on_action nid (routing event target)
            ∷ notify (shown_popup prior)
            ∷ l.calls)
        × ((begin_verdict event.container event.request_id target action
              (relay_reader_event time raw hub).0).1
            ≡ ok (
                flight event.container event.request_id target action
                  (event.container, target)
                  (get event.request_id (relay_reader_event time raw hub).0.live_verdicts_ts)))
  pressed-IsBound nid action hub time raw valid admission named known = (
    pressed nid action,
    ap (λ r. r.1)
        (begin_bound (relay_reader_event time raw hub).0 event.container event.request_id target
          action known bound),
  )
    where
      bound :
          get event.request_id (relay_reader_event time raw hub).0.live_verdicts
          ≡ some (event.container, target)
      bound =
          relay_bindings time raw hub event.request_id valid
          ∙ ap (λ a. bound_by a event.request_id (get event.request_id hub.live_verdicts)) admission
          ∙ rw (h.blocked, named, beq_self event.request_id) refl
