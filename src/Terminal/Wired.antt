-- ===== src/Terminal/Wired.antt =====
-- cli/terminal_clearance.py, notifications/callback.py and client/subscriber.py: a subscriber whose
-- notifier is that of the terminal. A call of `CallbackNotifier` waits for nothing, so a handler runs
-- from its first segment to its end.
pub mod Commands
pub mod Typed
pub mod Repeated
use terok_clearance.Common.{ℕ, zero, suc, String, Option, none, some}
use terok_clearance.Domain.Events.{ClearanceEvent}
use terok_clearance.Notifications.{Notification, CallbackNotifier}
use terok_clearance.Notifications
use terok_clearance.Notifications.Hooks.{notify_hooked}
use terok_clearance.Client.Popups.{Popup}
use terok_clearance.Client.Pending.{EventSubscriber}
use terok_clearance.Client.Subscriber.{
  Routing, Call, notify, close, on_action, verdict, Outcome, returned, Rest, Turn, resume,
}
use terok_clearance.Client.Subscriber.Dispatch.{on_event}
use terok_clearance.Terminal.{Terminal, on_notify}
use terok_clearance.Terminal.Running.{terminal_hooks}

-- What the arguments of `notify` make of a `Notification`, but for its id.
abbrev pub notification_of : Popup → Notification
notification_of p = record {
  nid = 0;
  summary = p.summary;
  body = p.body;
  actions = p.actions;
  replaces_id = p.replaces_id;
  timeout_ms = p.timeout_ms;
  container_id = p.container_id;
  container_name = p.identity.container_name;
  project = p.identity.project;
  task_id = p.identity.task_id;
  task_name = p.identity.task_name;
}

-- `notify`, with the hook of the terminal.
unfoldable pub show_popup : Popup → Terminal Routing → Terminal Routing × ℕ
unfolding notify_hooked terminal_hooks
show_popup p t =
    let (notifier, shown, nid) = notify_hooked terminal_hooks (notification_of p) t.notifier t in
    (record shown { notifier = notifier }, nid)

-- A call that a handler waits for, and what it comes to. A verdict goes to the hub, not to the
-- notifier.
unfoldable pub perform_call : Call → Terminal Routing → Terminal Routing × Outcome
unfolding show_popup Notifications.close Notifications.on_action
perform_call (notify p) t = let (shown, nid) = show_popup p t in (shown, returned nid)
perform_call (close nid) t =
    (record t { notifier = Notifications.close nid t.notifier }, returned 0)
perform_call (on_action nid r) t =
    (record t { notifier = Notifications.on_action nid r t.notifier }, returned 0)
perform_call (verdict c k d a) t = (t, returned 0)

-- A handler over a number of its awaits: what is left of it, and the terminal.
unfoldable pub drive_handler : ℕ → Turn → Terminal Routing → Turn × Terminal Routing
unfolding perform_call resume
drive_handler zero turn t = (turn, t)
drive_handler (suc n) turn t = elim turn.waits [
  | none ↦ (turn, t)
  | some (call, rest) ↦
      let (after, outcome) = perform_call call t in
      drive_handler n (resume outcome rest turn.subscriber) after
]

-- The handler of an event; none has more than two awaits.
unfoldable pub show_event :
    String → ClearanceEvent → EventSubscriber → Terminal Routing → Turn × Terminal Routing
unfolding on_event drive_handler
show_event now event s t = drive_handler 2 (on_event now event s).turn t
