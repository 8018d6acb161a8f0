-- ===== src/Client/Subscriber/Posts.antt =====
-- client/subscriber.py: which segments of a coroutine post a popup.
use terok_clearance.Common.{
  ℕ, String, Bool, true, false, ◌||◌, Option, none, some, List, [], ◌∷◌, string_eq, ◌==◌, get,
  remove, contains, if◌then◌else◌, ◌≡◌, refl, sym, ap, subst, arith, All, All-append,
}
use terok_clearance.Domain.Events.{ClearanceEvent}
use terok_clearance.Client.Pending.{PendingBlock, EventSubscriber}
use terok_clearance.Client.Subscriber.{
  Coroutine, handle_shield_down, handle_container_exited, close_stale_shield_down, post_shield_down,
  post_shield_up, post_container_started, post_container_exited, send_verdict, Rest, finishing,
  block_posted, purging, shield_down_posted, Call, notify, close, on_action, verdict, Outcome,
  returned, raised, Turn, ends, begin_task, resume, purge_next, blocks_of, close_shield_down,
  close_popped, record_block, drop_pending,
}
use terok_clearance.Client.Subscriber.Dispatch.{Reaction, on_event, background, foreground}
use terok_clearance.Client.Subscriber.Loop.{called}
use terok_clearance.Client.Subscriber.Gates.{is_needed, opted_in}

-- A call that posts no popup.
abbrev pub PostsNothing : Call → Type 0
PostsNothing (notify p) = ⊥
PostsNothing (close nid) = Unit
PostsNothing (on_action nid r) = Unit
PostsNothing (verdict c request_id target action) = Unit

abbrev pub IsNeeded : Coroutine → Type 0
IsNeeded c = is_needed c ≡ true

-- A segment that posts nothing and keeps the categories.
pub record IsMute (s : EventSubscriber) (turn : Turn) : Type 0 where
  pub categories : turn.subscriber.enabled_categories ≡ s.enabled_categories
  pub calls : All PostsNothing (called turn.waits)

pub ends-IsMute :
    (s t : EventSubscriber) → t.enabled_categories ≡ s.enabled_categories → IsMute s (ends t)
ends-IsMute s t h = record { categories = h; calls = tt }

pub close_shield_down-IsMute : (c : String) (s : EventSubscriber) → IsMute s (close_shield_down c s)
unfolding close_shield_down
close_shield_down-IsMute c s = go (get c s.shield_down_notifs)
  where
    dropped : EventSubscriber
    dropped = record s { shield_down_notifs = remove c s.shield_down_notifs }

    go : (o : Option ℕ) → IsMute s (close_popped o dropped)
    go none = record { categories = refl; calls = tt }
    go (some nid) = record { categories = refl; calls = (tt, tt) }

pub purge_next-IsMute :
    (stale : List PendingBlock) (after : Option String) (s : EventSubscriber)
    → IsMute s (purge_next stale after s)
unfolding purge_next
purge_next-IsMute [] none s = ends-IsMute s s refl
purge_next-IsMute [] (some c) s = close_shield_down-IsMute c s
purge_next-IsMute (p ∷ stale) after s = record { categories = refl; calls = (tt, tt) }

pub begin_task-IsMute :
    (c : Coroutine) (s : EventSubscriber) → IsNeeded c → IsMute s (begin_task c s)
unfolding begin_task
begin_task-IsMute (handle_shield_down c) s h = purge_next-IsMute (blocks_of c s.pending) none s
begin_task-IsMute (handle_container_exited c) s h =
    purge_next-IsMute (blocks_of c s.pending) (some c) s
begin_task-IsMute (close_stale_shield_down c) s h = close_shield_down-IsMute c s
begin_task-IsMute (post_shield_down c d a) s h = absurd (ground arith)
begin_task-IsMute (post_shield_up c d) s h = absurd (ground arith)
begin_task-IsMute (post_container_started c d) s h = absurd (ground arith)
begin_task-IsMute (post_container_exited c r d) s h = absurd (ground arith)
begin_task-IsMute (send_verdict c r t a) s h = record { categories = refl; calls = (tt, tt) }

-- No coroutine posts twice.
pub resume-IsMute : (o : Outcome) (r : Rest) (s : EventSubscriber) → IsMute s (resume o r s)
unfolding resume record_block
resume-IsMute o finishing s = ends-IsMute s s refl
resume-IsMute (returned nid) (block_posted event target prior count first_seen) s = record {
  categories = refl;
  calls = (tt, tt);
}
resume-IsMute raised (block_posted event target prior count first_seen) s = ends-IsMute s s refl
resume-IsMute o (purging stale after) s = purge_next-IsMute stale after s
resume-IsMute (returned nid) (shield_down_posted c) s = record { categories = refl; calls = tt }
resume-IsMute raised (shield_down_posted c) s = ends-IsMute s s refl

-- The reaction of a subscriber without categories.
pub record IsMuted (r : Reaction) : Type 0 where
  pub dispatched : All IsNeeded r.dispatched
  pub categories : r.turn.subscriber.enabled_categories ≡ []
  pub calls : All PostsNothing (called r.turn.waits)

pub if-IsMuted : (b : Bool) (x y : Reaction) → IsMuted x → IsMuted y → IsMuted (if b then x else y)
if-IsMuted true x y h k = h
if-IsMuted false x y h k = k

pub nothing-IsMuted :
    (t : EventSubscriber) → t.enabled_categories ≡ [] → IsMuted (foreground (ends t))
nothing-IsMuted t e = record { dispatched = tt; categories = e; calls = tt }

-- Where no category is enabled, only the tasks that are needed are dispatched.
pub tasks-IsMuted :
    (cs : List Coroutine) (post : Coroutine) (method : String) (arguments : List String)
    (t : EventSubscriber)
    → t.enabled_categories ≡ []
    → All IsNeeded cs
    → IsMuted (background cs false post method arguments t)
tasks-IsMuted cs post method arguments t e n = record {
  dispatched = All-append IsNeeded cs [] n tt;
  categories = e;
  calls = tt;
}

pub opted_out-IsMuted :
    (now : String) (event : ClearanceEvent) (s : EventSubscriber)
    → IsMuted (on_event now event (opted_in [] s))
unfolding on_event contains
opted_out-IsMuted now event s =
    if-IsMuted (event.type == "connection_blocked") _ _ (nothing-IsMuted t refl) (
      if-IsMuted (event.type == "verdict_applied") _ _
        (nothing-IsMuted (drop_pending event.request_id t) refl)
        (if-IsMuted (event.type == "container_started") _ _
          (tasks-IsMuted [] (post_container_started event.container event.dossier) _ _ t refl tt)
          (if-IsMuted (event.type == "container_exited") _ _
            (tasks-IsMuted (handle_container_exited event.container ∷ [])
              (post_container_exited event.container event.reason event.dossier) _ _ t refl
              (refl, tt))
            (if-IsMuted (event.type == "shield_up") _ _
              (tasks-IsMuted (close_stale_shield_down event.container ∷ [])
                (post_shield_up event.container event.dossier) _ _ t refl (refl, tt))
              (if-IsMuted (event.type == "shield_down" || event.type == "shield_disengaged") _ _
                (tasks-IsMuted (handle_shield_down event.container ∷ [])
                  (post_shield_down event.container event.dossier
                    (event.type == "shield_disengaged"))
                  _ _ t refl (refl, tt))
                (nothing-IsMuted t refl))))))
  where
    t : EventSubscriber
    t = opted_in [] s

pub on_event-IsMuted :
    (now : String) (event : ClearanceEvent) (s : EventSubscriber)
    → s.enabled_categories ≡ []
    → IsMuted (on_event now event s)
on_event-IsMuted now event s h =
    subst (λ (t : EventSubscriber). IsMuted (on_event now event t)) (sym same)
      (opted_out-IsMuted now event s)
  where
    same : s ≡ opted_in [] s
    same = ap (λ categories. opted_in categories s) h
