-- ===== src/Client/Subscriber/Segments.antt =====
-- client/subscriber.py: what each segment of a coroutine does to the pending blocks.
use terok_clearance.Common.{
  String, Bool, true, false, Option, none, some, List, [], ◌∷◌, string_eq, ◌==◌, ◌||◌, get, inl,
  inr, Option-cases, if◌then◌else◌, truthy, All,
}
use terok_clearance.Domain.Events.{ClearanceEvent}
use terok_clearance.Hub.Relay.{event_target}
use terok_clearance.Client.Pending.{PendingBlock, EventSubscriber, notify_blocked, notify_verdict}
use terok_clearance.Client.Subscriber.{
  Coroutine, handle_shield_down, handle_container_exited, close_stale_shield_down, post_shield_down,
  post_shield_up, post_container_started, post_container_exited, send_verdict, Rest, finishing,
  block_posted, purging, shield_down_posted, Call, Outcome, returned, raised, Turn, ends,
  begin_task, resume, purge_next, blocks_of, close_shield_down, live_block_on,
  handle_verdict_applied, resolve, record_block, alert_shield_down, handle_connection_blocked,
  prompt, drop_pending,
}
use terok_clearance.Client.Subscriber.Dispatch.{Reaction, on_event, enabled}
use terok_clearance.Client.Subscriber.Loop.{EventLoop, left, remaining}
use terok_clearance.Client.Subscriber.Tracked.{
  Blocks, IsTracked, Shrinks, Shrinks-refl, Shrinks-remove, Shrinks-IsTracked, IsOnly,
  IsOnly-Shrinks, live_block_on-IsOnly, record_block-IsTracked, begin_task-Shrinks,
  purge_next-Shrinks, handle_verdict_applied-Shrinks,
}

-- What is left of a background task is never the handler of a blocked connection.
abbrev pub IsBackground : Rest → Type 0
IsBackground finishing = Unit
IsBackground (block_posted event target prior count first_seen) = ⊥
IsBackground (purging stale after) = Unit
IsBackground (shield_down_posted c) = Unit

-- A handler at its `notify` still has the one block that it may replace.
abbrev pub Knows : Option Rest → Blocks → Type 0
Knows none d = Unit
Knows (some finishing) d = Unit
Knows (some (block_posted event target prior count first_seen)) d =
    IsOnly event.container target prior d
Knows (some (purging stale after)) d = Unit
Knows (some (shield_down_posted c)) d = Unit

pub Knows-Shrinks : (r : Option Rest) {d e : Blocks} → Shrinks d e → Knows r d → Knows r e
Knows-Shrinks none s h = tt
Knows-Shrinks (some finishing) s h = tt
Knows-Shrinks (some (block_posted event target prior count first_seen)) s h =
    IsOnly-Shrinks event.container target prior s h
Knows-Shrinks (some (purging stale after)) s h = tt
Knows-Shrinks (some (shield_down_posted c)) s h = tt

pub record IsOrderly (l : EventLoop) : Type 0 where
  pub tracked : IsTracked l.subscriber.pending
  pub knows : Knows l.handler l.subscriber.pending
  pub waiting : All IsBackground l.waiting

-- A segment of a background task.
pub record IsQuiet (d : Blocks) (turn : Turn) : Type 0 where
  pub shrinks : Shrinks d turn.subscriber.pending
  pub remains : All IsBackground (remaining turn.waits)

pub close_shield_down-remains :
    (c : String) (s : EventSubscriber) → All IsBackground (remaining (close_shield_down c s).waits)
unfolding close_shield_down
close_shield_down-remains c s = elim (Option-cases (get c s.shield_down_notifs)) [
  | inl missing ↦ rw missing tt
  | inr found ↦ rw found.1 (tt, tt)
]

pub purge_next-remains :
    (stale : List PendingBlock) (after : Option String) (s : EventSubscriber)
    → All IsBackground (remaining (purge_next stale after s).waits)
unfolding purge_next
purge_next-remains [] none s = tt
purge_next-remains [] (some c) s = close_shield_down-remains c s
purge_next-remains (p ∷ stale) after s = (tt, tt)

pub begin_task-remains :
    (c : Coroutine) (s : EventSubscriber) → All IsBackground (remaining (begin_task c s).waits)
unfolding begin_task alert_shield_down
begin_task-remains (handle_shield_down c) s = purge_next-remains (blocks_of c s.pending) none s
begin_task-remains (handle_container_exited c) s =
    purge_next-remains (blocks_of c s.pending) (some c) s
begin_task-remains (close_stale_shield_down c) s = close_shield_down-remains c s
begin_task-remains (post_shield_down c d a) s = (tt, tt)
begin_task-remains (post_shield_up c d) s = (tt, tt)
begin_task-remains (post_container_started c d) s = (tt, tt)
begin_task-remains (post_container_exited c r d) s = (tt, tt)
begin_task-remains (send_verdict c r t a) s = (tt, tt)

pub begin_task-IsQuiet : (c : Coroutine) (s : EventSubscriber) → IsQuiet s.pending (begin_task c s)
begin_task-IsQuiet c s = record {
  shrinks = begin_task-Shrinks c s;
  remains = begin_task-remains c s;
}

pub resume-IsQuiet :
    (o : Outcome) (r : Rest) (s : EventSubscriber)
    → IsBackground r
    → IsQuiet s.pending (resume o r s)
unfolding resume
resume-IsQuiet o finishing s h = record { shrinks = Shrinks-refl s.pending; remains = tt }
resume-IsQuiet o (block_posted event target prior count first_seen) s h = absurd h
resume-IsQuiet o (purging stale after) s h = record {
  shrinks = purge_next-Shrinks stale after s;
  remains = purge_next-remains stale after s;
}
resume-IsQuiet (returned nid) (shield_down_posted c) s h = record {
  shrinks = Shrinks-refl s.pending;
  remains = tt;
}
resume-IsQuiet raised (shield_down_posted c) s h = record {
  shrinks = Shrinks-refl s.pending;
  remains = tt;
}

-- A segment of the handler.
pub record IsHandling (turn : Turn) : Type 0 where
  pub tracked : IsTracked turn.subscriber.pending
  pub knows : Knows (left turn.waits) turn.subscriber.pending

pub ends-IsHandling : (s : EventSubscriber) → IsTracked s.pending → IsHandling (ends s)
ends-IsHandling s v = record { tracked = v; knows = tt }

pub Knows-background :
    (waits : Option (Call × Rest)) (d : Blocks)
    → All IsBackground (remaining waits)
    → Knows (left waits) d
Knows-background none d h = tt
Knows-background (some (call, finishing)) d h = tt
Knows-background (some (call, block_posted event target prior count first_seen)) d h = absurd h.0
Knows-background (some (call, purging stale after)) d h = tt
Knows-background (some (call, shield_down_posted c)) d h = tt

pub quiet-IsHandling : (d : Blocks) (turn : Turn) → IsTracked d → IsQuiet d turn → IsHandling turn
quiet-IsHandling d turn v q = record {
  tracked = Shrinks-IsTracked q.shrinks v;
  knows = Knows-background turn.waits turn.subscriber.pending q.remains;
}

pub resume-IsHandling :
    (o : Outcome) (r : Rest) (s : EventSubscriber)
    → IsTracked s.pending
    → Knows (some r) s.pending
    → IsHandling (resume o r s)
resume-IsHandling o finishing s v k =
    quiet-IsHandling s.pending _ v (resume-IsQuiet o finishing s tt)
resume-IsHandling (returned nid) (block_posted event target prior count first_seen) s v k =
    unfold resume record_block in
    record {
      tracked = record_block-IsTracked event target count nid first_seen prior s.pending v k;
      knows = tt;
    }
resume-IsHandling raised (block_posted event target prior count first_seen) s v k =
    unfold resume in ends-IsHandling s v
resume-IsHandling o (purging stale after) s v k =
    quiet-IsHandling s.pending _ v (resume-IsQuiet o (purging stale after) s tt)
resume-IsHandling o (shield_down_posted c) s v k =
    quiet-IsHandling s.pending _ v (resume-IsQuiet o (shield_down_posted c) s tt)

pub prompt-IsHandling :
    (now : String) (event : ClearanceEvent) (target : String) (prior : Option PendingBlock)
    (s : EventSubscriber)
    → IsTracked s.pending
    → IsOnly event.container target prior s.pending
    → IsHandling (prompt now event target prior s)
prompt-IsHandling now event target none s v only = record { tracked = v; knows = only }
prompt-IsHandling now event target (some prior) s v only = record { tracked = v; knows = only }

pub if-IsHandling :
    (b : Bool) (x y : Turn) → IsHandling x → IsHandling y → IsHandling (if b then x else y)
if-IsHandling true x y h k = h
if-IsHandling false x y h k = k

pub handle_connection_blocked-IsHandling :
    (now : String) (event : ClearanceEvent) (s : EventSubscriber)
    → IsTracked s.pending
    → IsHandling (handle_connection_blocked now event s)
unfolding handle_connection_blocked
handle_connection_blocked-IsHandling now event s v =
    if-IsHandling (truthy target)
      (prompt now event target (live_block_on event.container target s.pending) s) (ends s)
      (prompt-IsHandling now event target (live_block_on event.container target s.pending) s v
        (live_block_on-IsOnly event.container target s.pending v))
      (ends-IsHandling s v)
  where
    target : String
    target = event_target event

pub resolve-remains :
    (event : ClearanceEvent) (o : Option PendingBlock) (s : EventSubscriber)
    → All IsBackground (remaining (resolve event o s).waits)
resolve-remains event none s = tt
resolve-remains event (some p) s = (tt, tt)

pub handle_verdict_applied-IsHandling :
    (event : ClearanceEvent) (s : EventSubscriber)
    → IsTracked s.pending
    → IsHandling (handle_verdict_applied event s)
handle_verdict_applied-IsHandling event s v =
    quiet-IsHandling s.pending (handle_verdict_applied event s) v record {
      shrinks = handle_verdict_applied-Shrinks event s;
      remains =
          unfold handle_verdict_applied in
          resolve-remains event (get event.request_id s.pending) (drop_pending event.request_id s);
    }

pub if-turn :
    (b : Bool) (x y : Reaction)
    → IsHandling x.turn
    → IsHandling y.turn
    → IsHandling (if b then x else y).turn
if-turn true x y h k = h
if-turn false x y h k = k

pub on_event-IsHandling :
    (now : String) (event : ClearanceEvent) (s : EventSubscriber)
    → IsTracked s.pending
    → IsHandling (on_event now event s).turn
unfolding on_event
on_event-IsHandling now event s v =
    if-turn (event.type == "connection_blocked") _ _
      (if-IsHandling (enabled notify_blocked s) _ _
        (handle_connection_blocked-IsHandling now event s v) done)
      (if-turn (event.type == "verdict_applied") _ _
        (if-IsHandling (enabled notify_verdict s) _ _ (handle_verdict_applied-IsHandling event s v)
          (ends-IsHandling (drop_pending event.request_id s)
            (Shrinks-IsTracked (Shrinks-remove event.request_id s.pending) v)))
        (if-turn (event.type == "container_started") _ _ done (
          if-turn (event.type == "container_exited") _ _ done (
            if-turn (event.type == "shield_up") _ _ done (
              if-turn (event.type == "shield_down" || event.type == "shield_disengaged") _ _ done
                done)))))
  where
    done : IsHandling (ends s)
    done = ends-IsHandling s v
