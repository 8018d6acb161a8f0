-- ===== src/Terminal/Wired/Repeated.antt =====
-- cli/terminal_clearance.py and client/subscriber.py: a connection that is blocked again while the
-- operator has not answered.
use terok_clearance.Common.{
  ℕ, ◌+◌, ◌<◌, String, Bool, true, false, Option, none, some, nat_eq, string_eq, ◌==◌, get,
  get-put_self, get-remove_self, remove, ◌≡◌, refl, ap, ◌∙◌, arith,
}
use terok_clearance.Common.Int.{pos}
use terok_clearance.Domain.Events.{ClearanceEvent}
use terok_clearance.Hub.Relay.{event_target}
use terok_clearance.Notifications.{Notification, CallbackNotifier, notify, on_action}
use terok_clearance.Notifications.Hooks.{notify_hooked}
use terok_clearance.Client.Popups.{Popup, block_popup}
use terok_clearance.Client.Pending.{EventSubscriber, PendingBlock}
use terok_clearance.Client.Subscriber.{
  Routing, Turn, routing, new_block, live_block_on, resume, record_block, prompt,
}
use terok_clearance.Client.Subscriber.Loop.{started}
use terok_clearance.Client.Subscriber.Clicks.{Prompts, on_blocked}
use terok_clearance.Terminal.{Terminal, no_pending, has_key, handle_input, on_notify}
use terok_clearance.Terminal.Running.{terminal_hooks}
use terok_clearance.Terminal.Wired.{
  notification_of, show_popup, perform_call, drive_handler, show_event,
}
use terok_clearance.Terminal.Wired.Commands.{Gives, gives-refused}

notify_update :
    (n : Notification) (notifier : CallbackNotifier Routing)
    → (n.replaces_id == 0) ≡ false
    → notify n notifier ≡ (notifier, record n { nid = n.replaces_id })
unfolding notify
notify_update n notifier numbered = rw numbered refl

on_notify_listed :
    (n : Notification) (t : Terminal Routing)
    → (n.replaces_id == 0) ≡ false
    → has_key n.replaces_id t.pending ≡ true
    → on_notify n t ≡ record t { pending = remove n.replaces_id t.pending }
unfolding on_notify
on_notify_listed n t numbered listed = rw (numbered, listed) refl

-- A popup that replaces a listed notification takes it off the list, its buttons or not.
replacing :
    (popup : Popup) (t : Terminal Routing)
    → (popup.replaces_id == 0) ≡ false
    → has_key popup.replaces_id t.pending ≡ true
    → show_popup popup t
      ≡ (record t { pending = remove popup.replaces_id t.pending }, popup.replaces_id)
unfolding show_popup notify_hooked terminal_hooks
replacing popup t numbered listed =
    ap shown (notify_update (notification_of popup) t.notifier numbered)
    ∙ ap (λ (u : Terminal Routing). (record u { notifier = t.notifier }, popup.replaces_id))
        (on_notify_listed (record (notification_of popup) { nid = popup.replaces_id }) t numbered
          listed)
  where
    shown : CallbackNotifier Routing × Notification → Terminal Routing × ℕ
    shown (notifier, n) = (record (on_notify n t) { notifier = notifier }, n.nid)

abbrev not_listed : Option Notification → Bool
not_listed got = elim got [ none ↦ false | some n ↦ true ]

module _ (now : String) (event : ClearanceEvent) (s : EventSubscriber)
    (h : Prompts event (started s)) (p : PendingBlock)
    (pending : live_block_on event.container (event_target event) s.pending ≡ some p)
    (t : Terminal Routing) where
  shown_again :
      show_event now event s t
      ≡ drive_handler 2 (prompt now event (event_target event) (some p) s) t
  unfolding show_event started
  shown_again =
      ap (λ r. drive_handler 2 r.turn t) (on_blocked now event (started s) h)
      ∙ ap (λ o. drive_handler 2 (prompt now event (event_target event) o s) t) pending

  abbrev again : Turn × Terminal Routing
  again = drive_handler 2 (prompt now event (event_target event) (some p) s) t

  abbrev popup_again : Popup
  popup_again = block_popup event (event_target event) (p.count + 1) p.first_seen p.notification_id

  -- What follows the popup.
  abbrev recorded : Terminal Routing × ℕ → Turn × Terminal Routing
  recorded (shown, nid) =
      drive_handler 1
        (record_block event (event_target event) (some p) (p.count + 1) p.first_seen nid s) shown

  again_lem : again ≡ recorded (show_popup popup_again t)
  unfolding drive_handler perform_call resume
  again_lem = refl

  -- A connection is blocked again on a target whose request the terminal still lists: the popup that
  -- replaces the notification takes the request off the list. The subscriber has it pending under the
  -- new request id and its callback is bound, but a line with its number is answered by the message
  -- that there is no such request, and changes nothing.
  pub repeated_unlisted :
      {line cmd : String}
      → 0 < p.notification_id
      → has_key p.notification_id t.pending ≡ true
      → Gives line cmd p.notification_id
      → (get event.request_id (show_event now event s t).0.subscriber.pending
          ≡ some
              (new_block event (event_target event) (p.count + 1) p.first_seen p.notification_id))
        × (get p.notification_id (show_event now event s t).1.notifier.callbacks
            ≡ some (routing event (event_target event)))
        × (handle_input line (show_event now event s t).1
            ≡ ((show_event now event s t).1, no_pending (pos p.notification_id)))
  unfolding block_popup record_block drive_handler perform_call on_action resume has_key
  repeated_unlisted numbered listed given = rw (shown_again ∙ again_lem ∙ ap recorded replaced) (
    get-put_self event.request_id _ _,
    get-put_self p.notification_id _ _,
    gives-refused given _ (ap not_listed (get-remove_self p.notification_id t.pending)),
  )
    where
      positive : (p.notification_id == 0) ≡ false
      positive = ground arith

      replaced :
          show_popup popup_again t
          ≡ (record t { pending = remove p.notification_id t.pending }, p.notification_id)
      replaced = replacing popup_again t positive listed
