-- ===== src/Client/Subscriber/Dispatch.antt =====
-- client/subscriber.py: `_on_event`. What it does before its first await: the background tasks that
-- it dispatches, the lifecycle hooks that it calls, and the segment of its own handler.
use terok_clearance.Common.{
  String, Bool, ◌||◌, List, [], ◌∷◌, ◌++◌, string_eq, ◌==◌, contains, if◌then◌else◌,
}
use terok_clearance.Domain.Events.{ClearanceEvent}
use terok_clearance.Client.Pending.{
  EventSubscriber, notify_blocked, notify_verdict, notify_shield_up, notify_shield_down,
  notify_container_started, notify_container_exited,
}
use terok_clearance.Client.Subscriber.{
  Coroutine, handle_shield_down, handle_container_exited, close_stale_shield_down, post_shield_down,
  post_shield_up, post_container_started, post_container_exited, Turn, ends,
  handle_connection_blocked, handle_verdict_applied, drop_pending,
}

-- The hook of a notifier: the method and its arguments. A notifier without it, or one that raises,
-- changes nothing.
pub record Hook : Type 0 where
  pub method : String
  pub arguments : List String

pub record Reaction : Type 0 where
  pub dispatched : List Coroutine
  pub hooks : List Hook
  pub turn : Turn

abbrev pub enabled : String → EventSubscriber → Bool
enabled category s = contains category s.enabled_categories

-- Background tasks and one hook: the reaction to a lifecycle event.
abbrev pub background :
    List Coroutine → Bool → Coroutine → String → List String → EventSubscriber → Reaction
background cleanup shown post method arguments s = record {
  dispatched = cleanup ++ (if shown then post ∷ [] else []);
  hooks = record { method = method; arguments = arguments } ∷ [];
  turn = ends s;
}

abbrev pub foreground : Turn → Reaction
foreground turn = record { dispatched = []; hooks = []; turn = turn }

abbrev pub on_shield_down : Bool → ClearanceEvent → EventSubscriber → Reaction
on_shield_down allow_all event s =
    background (handle_shield_down event.container ∷ []) (enabled notify_shield_down s)
      (post_shield_down event.container event.dossier allow_all)
      (if allow_all then "on_shield_disengaged" else "on_shield_down") (event.container ∷ []) s

-- `_on_event`, with the time of day
unfoldable pub on_event : String → ClearanceEvent → EventSubscriber → Reaction
unfolding contains handle_connection_blocked handle_verdict_applied
on_event now event s =
    if event.type == "connection_blocked"
    then foreground
        (if enabled notify_blocked s then handle_connection_blocked now event s else ends s)
    else if event.type == "verdict_applied"
    then foreground (
        if enabled notify_verdict s
        then handle_verdict_applied event s
        else ends (drop_pending event.request_id s))
    else if event.type == "container_started"
    then background [] (enabled notify_container_started s)
        (post_container_started event.container event.dossier) "on_container_started"
        (event.container ∷ []) s
    else if event.type == "container_exited"
    then background (handle_container_exited event.container ∷ [])
        (enabled notify_container_exited s)
        (post_container_exited event.container event.reason event.dossier) "on_container_exited"
        (event.container ∷ event.reason ∷ []) s
    else if event.type == "shield_up"
    then background (close_stale_shield_down event.container ∷ []) (enabled notify_shield_up s)
        (post_shield_up event.container event.dossier) "on_shield_up" (event.container ∷ []) s
    else if event.type == "shield_down" || event.type == "shield_disengaged"
    then on_shield_down (event.type == "shield_disengaged") event s
    else foreground (ends s)
