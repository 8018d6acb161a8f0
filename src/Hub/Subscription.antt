-- ===== src/Hub/Subscription.antt =====
-- hub/server.py: `_subscribe`, from the call to the end of the connection.
use terok_clearance.Common.{ℕ, ◌+◌, Option, none, some, List, [], ◌∷◌, ◌==◌, nat_eq, if◌then◌else◌}
use terok_clearance.Domain.Events.{ClearanceEvent}
use terok_clearance.Hub.State.{Hub, Subscriber}

-- A new queue, in the set of subscribers.
unfoldable pub subscribe : Hub → Hub × ℕ
subscribe hub = (
  record hub {
    subscribers = record { key = hub.next_key; queue = [] } ∷ hub.subscribers;
    next_key = hub.next_key + 1;
  },
  hub.next_key,
)

unfoldable pub without : ℕ → List Subscriber → List Subscriber
without key [] = []
without key (s ∷ rest) =
    let others = without key rest in if s.key == key then others else s ∷ others

-- The `finally` block.
unfoldable pub unsubscribe : ℕ → Hub → Hub
unfolding without
unsubscribe key hub = record hub { subscribers = without key hub.subscribers }

abbrev pub after_get : Subscriber → Subscriber
after_get s = record s { queue = elim s.queue [ [] ↦ [] | e ∷ rest ↦ rest ] }

unfoldable pub get_from : ℕ → List Subscriber → List Subscriber
get_from key [] = []
get_from key (s ∷ rest) = (if s.key == key then after_get s else s) ∷ get_from key rest

unfoldable pub next_event : ℕ → List Subscriber → Option ClearanceEvent
next_event key [] = none
next_event key (s ∷ rest) =
    if s.key == key then elim s.queue [ [] ↦ none | e ∷ q ↦ some e ] else next_event key rest

-- `queue.get()` where an event waits: what is yielded, and the state after it.
unfoldable pub deliver : ℕ → Hub → Hub × Option ClearanceEvent
unfolding get_from next_event
deliver key hub =
    (record hub { subscribers = get_from key hub.subscribers }, next_event key hub.subscribers)
