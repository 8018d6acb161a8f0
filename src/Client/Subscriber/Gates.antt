-- ===== src/Client/Subscriber/Gates.antt =====
-- client/subscriber.py: the categories that a subscriber is opted in to.
use terok_clearance.Common.{
  String, Bool, true, false, ◌||◌, Option, none, some, List, [], ◌∷◌, ◌++◌, string_eq, ◌==◌, get,
  filter, if◌then◌else◌, ◌≡◌, refl, ap, ◌∙◌, sym, remove, truthy, Dict,
}
use terok_clearance.Domain.Events.{ClearanceEvent}
use terok_clearance.Hub.Relay.{event_target}
use terok_clearance.Client.Pending.{PendingBlock, EventSubscriber, notify_blocked, notify_verdict}
use terok_clearance.Client.Subscriber.{
  Coroutine, handle_shield_down, handle_container_exited, close_stale_shield_down, post_shield_down,
  post_shield_up, post_container_started, post_container_exited, send_verdict, Turn, ends,
  handle_verdict_applied, resolve, drop_pending, handle_connection_blocked, prompt, live_block_on,
}
use terok_clearance.Client.Subscriber.Dispatch.{Reaction, on_event, background, foreground, enabled}

-- A task that cleans up or sends a verdict, not one that only posts a popup.
abbrev pub is_needed : Coroutine → Bool
is_needed (handle_shield_down c) = true
is_needed (handle_container_exited c) = true
is_needed (close_stale_shield_down c) = true
is_needed (post_shield_down c dossier allow_all) = false
is_needed (post_shield_up c dossier) = false
is_needed (post_container_started c dossier) = false
is_needed (post_container_exited c reason dossier) = false
is_needed (send_verdict c request_id target action) = true

abbrev pub opted_in : List String → EventSubscriber → EventSubscriber
opted_in categories s = record s { enabled_categories = categories }

-- What two reactions have in common.
record Agree (x y : Reaction) : Type 0 where
  needed : filter is_needed x.dispatched ≡ filter is_needed y.dispatched
  hooks : x.hooks ≡ y.hooks
  pending : x.turn.subscriber.pending ≡ y.turn.subscriber.pending

if-Agree :
    (b : Bool) (x y x' y' : Reaction)
    → Agree x x'
    → Agree y y'
    → Agree (if b then x else y) (if b then x' else y')
if-Agree true x y x' y' h k = h
if-Agree false x y x' y' h k = k

filter-gated :
    (cleanup : List Coroutine) (shown : Bool) (post : Coroutine)
    → is_needed post ≡ false
    → filter is_needed (cleanup ++ (if shown then post ∷ [] else [])) ≡ filter is_needed cleanup
unfolding filter
filter-gated [] true post h = rw h refl
filter-gated [] false post h = refl
filter-gated (c ∷ cleanup) shown post h =
    ap (λ rest. if is_needed c then c ∷ rest else rest) (filter-gated cleanup shown post h)

module _ (cleanup : List Coroutine) (a b : Bool) (post : Coroutine) (method : String) where
  post-Agree :
      (arguments : List String) (s t : EventSubscriber)
      → is_needed post ≡ false
      → s.pending ≡ t.pending
      → Agree
          (background cleanup a post method arguments s)
          (background cleanup b post method arguments t)
  post-Agree arguments s t h k = record {
    needed = filter-gated cleanup a post h ∙ sym (filter-gated cleanup b post h);
    hooks = refl;
    pending = k;
  }

abbrev pending_of : Turn → Dict String PendingBlock
pending_of turn = turn.subscriber.pending

if-pending :
    (b : Bool) (x y : Turn) (d : Dict String PendingBlock)
    → x.subscriber.pending ≡ d
    → y.subscriber.pending ≡ d
    → (if b then x else y).subscriber.pending ≡ d
if-pending true x y d h k = h
if-pending false x y d h k = k

turn-Agree :
    (x y : Turn) (d : Dict String PendingBlock)
    → x.subscriber.pending ≡ d
    → y.subscriber.pending ≡ d
    → Agree (foreground x) (foreground y)
turn-Agree x y d h k = record { needed = refl; hooks = refl; pending = h ∙ sym k }

prompt-pending :
    (now : String) (event : ClearanceEvent) (target : String) (o : Option PendingBlock)
    (s : EventSubscriber)
    → (prompt now event target o s).subscriber.pending ≡ s.pending
prompt-pending now event target none s = refl
prompt-pending now event target (some p) s = refl

handle_connection_blocked-pending :
    (now : String) (event : ClearanceEvent) (s : EventSubscriber)
    → (handle_connection_blocked now event s).subscriber.pending ≡ s.pending
unfolding handle_connection_blocked
handle_connection_blocked-pending now event s =
    if-pending (truthy (event_target event)) _ _ s.pending
      (prompt-pending now event (event_target event)
        (live_block_on event.container (event_target event) s.pending) s)
      refl

resolve-pending :
    (event : ClearanceEvent) (o : Option PendingBlock) (s : EventSubscriber)
    → (resolve event o s).subscriber.pending ≡ s.pending
resolve-pending event none s = refl
resolve-pending event (some p) s = refl

handle_verdict_applied-pending :
    (event : ClearanceEvent) (s : EventSubscriber)
    → (handle_verdict_applied event s).subscriber.pending ≡ remove event.request_id s.pending
unfolding handle_verdict_applied
handle_verdict_applied-pending event s =
    resolve-pending event (get event.request_id s.pending) (drop_pending event.request_id s)

shown_or_not :
    (now : String) (event : ClearanceEvent) (shown : Bool) (s : EventSubscriber)
    → (if shown then handle_connection_blocked now event s else ends s).subscriber.pending
      ≡ s.pending
shown_or_not now event shown s =
    if-pending shown _ _ s.pending (handle_connection_blocked-pending now event s) refl

resolved_or_not :
    (event : ClearanceEvent) (shown : Bool) (s : EventSubscriber)
    → pending_of
        (if shown then handle_verdict_applied event s else ends (drop_pending event.request_id s))
      ≡ remove event.request_id s.pending
resolved_or_not event shown s =
    if-pending shown _ _ (remove event.request_id s.pending)
      (handle_verdict_applied-pending event s) refl

agree :
    (now : String) (event : ClearanceEvent) (s : EventSubscriber) (a b : List String)
    → Agree (on_event now event (opted_in a s)) (on_event now event (opted_in b s))
unfolding on_event
agree now event s a b =
    if-Agree (event.type == "connection_blocked") _ _ _ _
      (turn-Agree _ _ s.pending
        (shown_or_not now event (enabled notify_blocked (opted_in a s)) (opted_in a s))
        (shown_or_not now event (enabled notify_blocked (opted_in b s)) (opted_in b s)))
      (if-Agree (event.type == "verdict_applied") _ _ _ _
        (turn-Agree _ _ (remove event.request_id s.pending)
          (resolved_or_not event (enabled notify_verdict (opted_in a s)) (opted_in a s))
          (resolved_or_not event (enabled notify_verdict (opted_in b s)) (opted_in b s)))
        (if-Agree (event.type == "container_started") _ _ _ _
          (post-Agree [] _ _ (post_container_started event.container event.dossier) _ _ _ _ refl
            refl)
          (if-Agree (event.type == "container_exited") _ _ _ _
            (post-Agree (handle_container_exited event.container ∷ []) _ _
              (post_container_exited event.container event.reason event.dossier) _ _ _ _ refl refl)
            (if-Agree (event.type == "shield_up") _ _ _ _
              (post-Agree (close_stale_shield_down event.container ∷ []) _ _
                (post_shield_up event.container event.dossier) _ _ _ _ refl refl)
              (if-Agree (event.type == "shield_down" || event.type == "shield_disengaged") _ _ _ _
                (post-Agree (handle_shield_down event.container ∷ []) _ _
                  (post_shield_down event.container event.dossier
                    (event.type == "shield_disengaged"))
                  _ _ _ _ refl refl)
                (turn-Agree _ _ s.pending refl refl))))))

-- What an event makes a subscriber clean up does not depend on the categories that it is opted in
-- to: the tasks that close popups and drop blocks, the lifecycle hook and its arguments, and the
-- pending map when the handler first waits are the same for any two sets of categories.
pub on_event-opted_in :
    (now : String) (event : ClearanceEvent) (s : EventSubscriber) (a b : List String)
    → (filter is_needed (on_event now event (opted_in a s)).dispatched
        ≡ filter is_needed (on_event now event (opted_in b s)).dispatched)
      × ((on_event now event (opted_in a s)).hooks ≡ (on_event now event (opted_in b s)).hooks)
      × ((on_event now event (opted_in a s)).turn.subscriber.pending
          ≡ (on_event now event (opted_in b s)).turn.subscriber.pending)
on_event-opted_in now event s a b = (both.needed, both.hooks, both.pending)
  where
    both : Agree (on_event now event (opted_in a s)) (on_event now event (opted_in b s))
    both = agree now event s a b
