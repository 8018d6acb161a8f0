-- ===== src/Terminal/Wired/Typed.antt =====
-- cli/terminal_clearance.py, client/subscriber.py and hub/server.py: from a reader's report to the line
-- that the operator types and the verdict that the hub takes for it.
use terok_clearance.Common.{
  ℕ, String, true, Option, none, some, nat_eq, string_eq, get, truthy, ◌≡◌, refl, ap, ◌∙◌,
  get-put_self, ok, false,
}
use terok_clearance.Domain.Events.{ClearanceEvent}
use terok_clearance.Hub.State.{Hub}
use terok_clearance.Hub.Payload.{Fields}
use terok_clearance.Hub.Invariant.{IsValid}
use terok_clearance.Hub.Relay.{event_target, relay_reader_event, admitted, admit}
use terok_clearance.Hub.Verdict.{begin_verdict, flight}
use terok_clearance.Notifications.{Notification, notify, on_action}
use terok_clearance.Notifications.Hooks.{notify_hooked}
use terok_clearance.Client.Popups.{block_popup}
use terok_clearance.Client.Pending.{EventSubscriber}
use terok_clearance.Client.Subscriber.{
  Routing, Turn, routing, live_block_on, resume, record_block, prompt,
}
use terok_clearance.Client.Subscriber.Loop.{started}
use terok_clearance.Client.Subscriber.Clicks.{Prompts, on_blocked, pressed-IsBound}
use terok_clearance.Terminal.{Terminal, answer, has_key, action_of, handle_input, on_notify}
use terok_clearance.Terminal.Running.{terminal_hooks}
use terok_clearance.Terminal.Answers.{known_action}
use terok_clearance.Terminal.Wired.{show_popup, perform_call, drive_handler, show_event}
use terok_clearance.Terminal.Wired.Commands.{Gives, gives-answer}

module _ (now : String) (event : ClearanceEvent) (s : EventSubscriber)
    (h : Prompts event (started s)) (t : Terminal Routing) where
  abbrev target : String
  target = event_target event

  -- The first report on a target: its notification gets a new number.
  module _ (fresh : live_block_on event.container target s.pending ≡ none) where
    abbrev shown : Terminal Routing
    shown = (show_event now event s t).1

    shown_first : show_event now event s t ≡ drive_handler 2 (prompt now event target none s) t
    unfolding show_event started
    shown_first =
        ap (λ r. drive_handler 2 r.turn t) (on_blocked now event (started s) h)
        ∙ ap (λ o. drive_handler 2 (prompt now event target o s) t) fresh

    abbrev first : Turn × Terminal Routing
    first = drive_handler 2 (prompt now event target none s) t

    first-listed :
        (first.0.waits ≡ none)
        × (has_key t.notifier.next_id first.1.pending ≡ true)
        × (get t.notifier.next_id first.1.notifier.callbacks ≡ some (routing event target))
    unfolding drive_handler perform_call show_popup notify_hooked terminal_hooks notify on_notify
        on_action resume record_block block_popup has_key
    first-listed = (
      refl,
      ap (λ (got : Option Notification). elim got [ none ↦ false | some n ↦ true ])
          (get-put_self t.notifier.next_id _ t.pending),
      get-put_self t.notifier.next_id (routing event target) t.notifier.callbacks,
    )

    typed :
        {line cmd : String}
        → Gives line cmd t.notifier.next_id
        → ((show_event now event s t).0.waits ≡ none)
          × ((handle_input line (show_event now event s t).1).1
              ≡ answer (some (routing event target, action_of cmd)))
    typed given = rw shown_first (
      first-listed.0,
      gives-answer given first.1 (routing event target) first-listed.1 first-listed.2,
    )

    -- A valid hub admits a reader's report of a blocked connection whose request id and target are
    -- not empty, and a subscriber that is opted in to these, with no handler or task under way and
    -- the terminal's notifier, shows it, the first that is pending on its target. Its handler then
    -- runs to its end, and a line of the operator with a verdict command and the number that the
    -- notification got calls back with the event's container, request and target and with the action
    -- that the command stands for: the hub lets a verdict on these through, as it finds the binding
    -- that it took for the event.
    pub typed-IsBound :
        (hub : Hub) (time : ℕ) (raw : Fields) {line cmd : String}
        → IsValid hub
        → admit hub raw ≡ admitted event
        → truthy event.request_id ≡ true
        → Gives line cmd t.notifier.next_id
        → ((show_event now event s t).0.waits ≡ none)
          × ((handle_input line (show_event now event s t).1).1
              ≡ answer (some (routing event target, action_of cmd)))
          × ((begin_verdict event.container event.request_id target
                (action_of cmd)
                (relay_reader_event time raw hub).0).1
              ≡ ok (
                  flight event.container event.request_id target
                    (action_of cmd)
                    (event.container, target)
                    (get event.request_id (relay_reader_event time raw hub).0.live_verdicts_ts)))
    typed-IsBound hub time raw {line} {cmd} valid admission named given = (
      (typed given).0,
      (typed given).1,
      (pressed-IsBound now event (started s) h 0 (action_of cmd) hub time raw valid admission named
          (known_action cmd)).1,
    )
