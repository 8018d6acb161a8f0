-- ===== src/Tests/Popups.antt =====
-- An `EventSubscriber` on concrete events.
use terok_clearance.Common.{
  ◌<◌, String, true, none, some, List, [], ◌∷◌, ◌++◌, ◌≡◌, refl, arith, string_eq, nat_eq, get,
  remove, contains, ok, All, filter, none_if,
}
use terok_clearance.Domain.Events.{ClearanceEvent, bare_event}
use terok_clearance.Hub.Verdict.{begin_verdict, flight}
use terok_clearance.Hub.Relay.{relay_reader_event}
use terok_clearance.Hub.Invariant.{fresh-IsValid}
use terok_clearance.Client.Pending.{EventSubscriber, new_subscriber, PendingBlock}
use terok_clearance.Client.Subscriber.{
  notify, close, on_action, verdict, Outcome, returned, raised, routing, new_block, finishing,
  blocks_of,
}
use terok_clearance.Client.Subscriber.Dispatch.{on_event}
use terok_clearance.Client.Subscriber.Loop.{
  EventLoop, Action, receive, handled, run_task, wake, run, started,
}
use terok_clearance.Client.Subscriber.Tracked.{IsTracked}
use terok_clearance.Client.Subscriber.Single.{run-IsTracked}
use terok_clearance.Client.Subscriber.Purging.{
  drive, driven, exited_task, is_for, closes, close_of, drive-purged,
}
use terok_clearance.Client.Subscriber.Clicks.{
  Prompts, answered, press_on, shown_popup, prior, pressed-IsBound,
}
use terok_clearance.Client.Subscriber.Alerts.{on_return, posted, posting, shield_up_order}
use terok_clearance.Client.Subscriber.Gates.{is_needed, opted_in, on_event-opted_in}
use terok_clearance.Client.Subscriber.Posts.{PostsNothing}
use terok_clearance.Client.Subscriber.Silent.{run-PostsNothing}
use terok_clearance.Tests.{asked, asked_admitted, c1, idle, idle-IsFresh, pending, known_action}

abbrev asked_again : ClearanceEvent
asked_again = record asked { request_id = "r2" }

abbrev exit : ClearanceEvent
exit = bare_event "container_exited" c1

-- Two blocks on one target, then the container's exit and its cleanup.
abbrev busy : List Action
busy =
    receive "09:00:00" asked
    ∷ handled (returned 7)
    ∷ handled (returned 0)
    ∷ receive "09:00:09" asked_again
    ∷ handled (returned 7)
    ∷ handled raised
    ∷ receive "09:01:00" exit
    ∷ run_task 0
    ∷ wake 0 raised
    ∷ []

run-IsTracked_example : IsTracked (run busy (started (new_subscriber none))).subscriber.pending
run-IsTracked_example = run-IsTracked none busy

abbrev quiet : EventLoop
quiet = started (new_subscriber none)

quiet-Prompts : Prompts asked quiet
unfolding started new_subscriber contains
quiet-Prompts = record {
  idle = refl;
  unscheduled = refl;
  blocked = refl;
  shown = refl;
  targeted = refl;
}

abbrev time : String
time = "09:00:00"

pressed-IsBound_example :
    ((press_on time asked quiet quiet-Prompts "allow"
        (answered time asked quiet quiet-Prompts (returned 7))).calls
      ≡ verdict c1 "r1" "192.0.2.7" "allow"
        ∷ on_action 7 (routing asked "192.0.2.7")
        ∷ notify (shown_popup time asked quiet quiet-Prompts (prior time asked quiet quiet-Prompts))
        ∷ quiet.calls)
    × ((begin_verdict c1 "r1" "192.0.2.7" "allow" (relay_reader_event 5 pending idle).0).1
        ≡ ok (
            flight c1 "r1" "192.0.2.7" "allow"
              (c1, "192.0.2.7")
              (get "r1" (relay_reader_event 5 pending idle).0.live_verdicts_ts)))
pressed-IsBound_example =
    pressed-IsBound time asked quiet quiet-Prompts 7 "allow" idle 5 pending
      (fresh-IsValid idle idle-IsFresh) asked_admitted refl known_action

-- The block of the first event, seven being its notification.
abbrev first_block : PendingBlock
first_block = new_block asked "192.0.2.7" 1 time 7

abbrev shown_once : EventSubscriber
shown_once = record {
  enabled_categories = "blocked" ∷ [];
  pending = ("r1", first_block) ∷ [];
  shield_down_notifs = (c1, 9) ∷ [];
}

abbrev shown_loop : EventLoop
shown_loop = started shown_once

shown_loop-Prompts : Prompts asked_again shown_loop
unfolding started contains
shown_loop-Prompts = record {
  idle = refl;
  unscheduled = refl;
  blocked = refl;
  shown = refl;
  targeted = refl;
}

abbrev answered_again : Outcome → EventLoop
answered_again = answered "09:00:09" asked_again shown_loop shown_loop-Prompts

shown_once-IsTracked : IsTracked shown_once.pending
unfolding get
shown_once-IsTracked = record {
  dict = (refl, tt);
  keyed = λ k p h. ground (arith, h, string_eq.equal_iff "r1" k);
  single = λ j k p q hj hk c t.
      ground (arith, hj, hk, string_eq.equal_iff "r1" j, string_eq.equal_iff "r1" k);
}

abbrev left : EventSubscriber
left = (drive (raised ∷ raised ∷ []) (exited_task c1 shown_once)).subscriber

one_block : 1 < 2
one_block = omega arith

drive-purged_example :
    ((drive (raised ∷ raised ∷ []) (exited_task c1 shown_once)).waits ≡ none)
    × ((k : String) → get k left.pending ≡ none_if (is_for c1) (get k shown_once.pending))
    × (left.shield_down_notifs ≡ remove c1 shown_once.shield_down_notifs)
    × (driven (raised ∷ raised ∷ []) (exited_task c1 shown_once)
        ≡ closes (blocks_of c1 shown_once.pending)
          ++ close_of (get c1 shown_once.shield_down_notifs))
drive-purged_example =
    drive-purged c1 (raised ∷ raised ∷ []) shown_once shown_once-IsTracked
      (unfold blocks_of in one_block)

abbrev no_popups : EventSubscriber
no_popups = record shown_once { shield_down_notifs = [] }

shield_up_order_example :
    ((on_return c1 [] true 9 no_popups
        (posted c1 [] true 9 no_popups (posting c1 [] true 9 no_popups))).waits
      ≡ some (close 9, finishing))
    × (get c1
          (on_return c1 [] true 9 no_popups (
            posted c1 [] true 9 no_popups
              (posting c1 [] true 9 no_popups))).subscriber.shield_down_notifs
        ≡ none)
    × ((on_return c1 [] true 9 no_popups (posting c1 [] true 9 no_popups)).waits ≡ none)
    × (get c1
          (posted c1 [] true 9 no_popups
            (on_return c1 [] true 9 no_popups
              (posting c1 [] true 9 no_popups)).subscriber).shield_down_notifs
        ≡ some 9)
shield_up_order_example = shield_up_order c1 [] true 9 no_popups (unfold get in refl)

on_event-opted_in_example :
    (filter is_needed (on_event time exit (opted_in [] shown_once)).dispatched
      ≡ filter is_needed (on_event time exit (opted_in ("verdict" ∷ []) shown_once)).dispatched)
    × ((on_event time exit (opted_in [] shown_once)).hooks
        ≡ (on_event time exit (opted_in ("verdict" ∷ []) shown_once)).hooks)
    × ((on_event time exit (opted_in [] shown_once)).turn.subscriber.pending
        ≡ (on_event time exit (opted_in ("verdict" ∷ []) shown_once)).turn.subscriber.pending)
on_event-opted_in_example = on_event-opted_in time exit shown_once [] ("verdict" ∷ [])

run-PostsNothing_example :
    All PostsNothing (run busy (started (new_subscriber (some ("popups" ∷ []))))).calls
run-PostsNothing_example = run-PostsNothing ("popups" ∷ []) busy (unfold filter contains in refl)
