-- ===== src/Client/Subscriber.antt =====
-- client/subscriber.py: the state of `EventSubscriber` and its coroutines. A coroutine is cut at its
-- awaits: a segment runs to the next call that it waits for, and what is left of it is a value.
pub mod Dispatch
pub mod Loop
pub mod Tracked
pub mod Segments
pub mod Single
pub mod Purging
pub mod Gates
pub mod Posts
pub mod Silent
pub mod Clicks
pub mod Alerts
use terok_clearance.Common.{
  ℕ, zero, suc, ◌+◌, String, Bool, true, false, ◌&&◌, not, Option, none, some, List, [], ◌∷◌, map,
  Dict, string_eq, nat_eq, ◌==◌, get, put, remove, contains, filter, truthy, if◌then◌else◌,
}
use terok_clearance.Domain.Events.{Dossier, ClearanceEvent}
use terok_clearance.Hub.Relay.{event_target}
use terok_clearance.Client.Popups.{
  Popup, block_popup, outcome_popup, shield_down_popup, shield_up_popup, started_popup,
  exited_popup,
}
use terok_clearance.Client.Pending.{
  notify_blocked, notify_verdict, notify_shield_up, notify_shield_down, notify_container_started,
  notify_container_exited, all_notify_categories, PendingBlock, EventSubscriber, new_subscriber,
}

-- What the callback of a prompt closes over: container, request id and target.
pub record Routing : Type 0 where
  pub container : String
  pub request_id : String
  pub target : String

-- A call that a coroutine waits for. The last is `self._client.verdict(…)`.
pub data Call : Type 0 where
  notify : Popup → Call
  close : ℕ → Call
  on_action : ℕ → Routing → Call
  verdict : String → String → String → String → Call

-- What a call comes to: `notify` returns the notification's id, the others nothing that is read.
pub data Outcome : Type 0 where
  returned : ℕ → Outcome
  raised : Outcome

-- A coroutine that has not begun.
pub data Coroutine : Type 0 where
  handle_shield_down : String → Coroutine
  handle_container_exited : String → Coroutine
  close_stale_shield_down : String → Coroutine
  post_shield_down : String → Dossier → Bool → Coroutine
  post_shield_up : String → Dossier → Coroutine
  post_container_started : String → Dossier → Coroutine
  post_container_exited : String → String → Dossier → Coroutine
  send_verdict : String → String → String → String → Coroutine

-- What is left of a coroutine at an await.
pub data Rest : Type 0 where
  -- nothing that changes state
  finishing : Rest
  -- `_handle_connection_blocked` at its `notify`: the target, the prior block, and the count and the
  -- time of the new one
  block_posted : ClearanceEvent → String → Option PendingBlock → ℕ → String → Rest
  -- `_purge_container` at a `close`: the blocks left, and the container whose exit goes on after it
  purging : List PendingBlock → Option String → Rest
  -- `_notify_shield_down` at its `notify`
  shield_down_posted : String → Rest

-- The state after a segment; the call that it waits for and what is left, unless it has ended.
pub record Turn : Type 0 where
  pub subscriber : EventSubscriber
  pub waits : Option (Call × Rest)

abbrev pub ends : EventSubscriber → Turn
ends s = record { subscriber = s; waits = none }

abbrev pub awaits : EventSubscriber → Call → Rest → Turn
awaits s call rest = record { subscriber = s; waits = some (call, rest) }

-- `_live_block_on`
unfoldable pub live_block_on : String → String → Dict String PendingBlock → Option PendingBlock
live_block_on container target [] = none
live_block_on container target ((k, p) ∷ pending) =
    if p.container == container && p.target == target
    then some p
    else live_block_on container target pending

-- The prompt after the search for a prior block.
abbrev pub prompt : String → ClearanceEvent → String → Option PendingBlock → EventSubscriber → Turn
prompt now event target none s =
    awaits s (notify (block_popup event target 1 now 0)) (block_posted event target none 1 now)
prompt now event target (some prior) s =
    awaits s
      (notify (block_popup event target (prior.count + 1) prior.first_seen prior.notification_id))
      (block_posted event target (some prior) (prior.count + 1) prior.first_seen)

-- `_handle_connection_blocked` up to its `notify`
unfoldable pub handle_connection_blocked : String → ClearanceEvent → EventSubscriber → Turn
handle_connection_blocked now event s =
    let target = event_target event in
    let turn = prompt now event target (live_block_on event.container target s.pending) s in
    if truthy target then turn else ends s

abbrev pub drop_prior : Option PendingBlock → Dict String PendingBlock → Dict String PendingBlock
drop_prior none pending = pending
drop_prior (some prior) pending = remove prior.request_id pending

abbrev pub new_block : ClearanceEvent → String → ℕ → String → ℕ → PendingBlock
new_block event target count first_seen nid = record {
  notification_id = nid;
  container = event.container;
  request_id = event.request_id;
  target = target;
  dossier = event.dossier;
  count = count;
  first_seen = first_seen;
}

abbrev pub routing : ClearanceEvent → String → Routing
routing event target = record {
  container = event.container;
  request_id = event.request_id;
  target = target;
}

-- The rest of `_handle_connection_blocked`, once `notify` has returned.
unfoldable pub record_block :
    ClearanceEvent → String → Option PendingBlock → ℕ → String → ℕ → EventSubscriber → Turn
record_block event target prior count first_seen nid s =
    awaits
      (record s {
        pending =
            put event.request_id (new_block event target count first_seen nid)
              (drop_prior prior s.pending);
      })
      (on_action nid (routing event target)) finishing

-- `_handle_verdict_applied`, after the `pop`
abbrev pub resolve : ClearanceEvent → Option PendingBlock → EventSubscriber → Turn
resolve event none s = ends s
resolve event (some p) s =
    awaits s (notify (outcome_popup event p.notification_id p.container p.target p.dossier))
      finishing

abbrev pub drop_pending : String → EventSubscriber → EventSubscriber
drop_pending request_id s = record s { pending = remove request_id s.pending }

-- `_handle_verdict_applied`
unfoldable pub handle_verdict_applied : ClearanceEvent → EventSubscriber → Turn
handle_verdict_applied event s =
    resolve event (get event.request_id s.pending) (drop_pending event.request_id s)

abbrev pub close_popped : Option ℕ → EventSubscriber → Turn
close_popped none s = ends s
close_popped (some nid) s = awaits s (close nid) finishing

-- The `pop` of a container's shield-down popup and its `close`: `_close_stale_shield_down`, and the
-- end of `_handle_container_exited`.
unfoldable pub close_shield_down : String → EventSubscriber → Turn
close_shield_down container s =
    close_popped (get container s.shield_down_notifs)
      (record s { shield_down_notifs = remove container s.shield_down_notifs })

-- The loop of `_purge_container` from one await to the next, and what follows the loop.
unfoldable pub purge_next : List PendingBlock → Option String → EventSubscriber → Turn
unfolding close_shield_down
purge_next [] none s = ends s
purge_next [] (some container) s = close_shield_down container s
purge_next (p ∷ stale) after s =
    awaits (drop_pending p.request_id s) (close p.notification_id) (purging stale after)

-- `[pending for pending in self._pending.values() if pending.container == container]`
unfoldable pub blocks_of : String → Dict String PendingBlock → List PendingBlock
blocks_of container [] = []
blocks_of container ((k, p) ∷ pending) =
    let rest = blocks_of container pending in if p.container == container then p ∷ rest else rest

-- `_notify_shield_down` up to its `notify`
unfoldable pub alert_shield_down : String → Dossier → Bool → EventSubscriber → Turn
alert_shield_down container dossier allow_all s =
    awaits s
      (notify (
        shield_down_popup container dossier allow_all
          (elim (get container s.shield_down_notifs) [ none ↦ 0 | some nid ↦ nid ])))
      (shield_down_posted container)

-- The first segment of a background task.
unfoldable pub begin_task : Coroutine → EventSubscriber → Turn
unfolding purge_next blocks_of close_shield_down alert_shield_down
begin_task (handle_shield_down container) s = purge_next (blocks_of container s.pending) none s
begin_task (handle_container_exited container) s =
    purge_next (blocks_of container s.pending) (some container) s
begin_task (close_stale_shield_down container) s = close_shield_down container s
begin_task (post_shield_down container dossier allow_all) s =
    alert_shield_down container dossier allow_all s
begin_task (post_shield_up container dossier) s =
    awaits s (notify (shield_up_popup container dossier)) finishing
begin_task (post_container_started container dossier) s =
    awaits s (notify (started_popup container dossier)) finishing
begin_task (post_container_exited container reason dossier) s =
    awaits s (notify (exited_popup container reason dossier)) finishing
begin_task (send_verdict container request_id target action) s =
    awaits s (verdict container request_id target action) finishing

-- A later segment. A `notify` that raises ends its coroutine; a `close` that raises is logged.
unfoldable pub resume : Outcome → Rest → EventSubscriber → Turn
unfolding record_block purge_next
resume outcome finishing s = ends s
resume (returned nid) (block_posted event target prior count first_seen) s =
    record_block event target prior count first_seen nid s
resume raised (block_posted event target prior count first_seen) s = ends s
resume outcome (purging stale after) s = purge_next stale after s
resume (returned nid) (shield_down_posted container) s =
    ends (record s { shield_down_notifs = put container nid s.shield_down_notifs })
resume raised (shield_down_posted container) s = ends s
