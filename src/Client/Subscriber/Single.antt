-- ===== src/Client/Subscriber/Single.antt =====
-- client/subscriber.py: the pending blocks in every order of events, background tasks and answers.
use terok_clearance.Common.{
  ℕ, String, Option, none, some, List, [], ◌∷◌, string_eq, get, ◌≡◌, refl, arith, All, All-append,
}
use terok_clearance.Domain.Events.{ClearanceEvent}
use terok_clearance.Client.Pending.{new_subscriber}
use terok_clearance.Client.Subscriber.{Coroutine, Rest, Outcome, Turn, begin_task, resume}
use terok_clearance.Client.Subscriber.Loop.{
  EventLoop, Action, receive, handled, run_task, wake, press, cancel_tasks, stop_client, step, run,
  started, pick, remaining, receive_event, handle_outcome, begin_picked, wake_picked, clear, work,
}
use terok_clearance.Client.Subscriber.Loop.Picks.{pick-All}
use terok_clearance.Client.Subscriber.Tracked.{IsTracked, Shrinks-IsTracked}
use terok_clearance.Client.Subscriber.Segments.{
  IsBackground, Knows, Knows-Shrinks, IsOrderly, IsQuiet, begin_task-IsQuiet, resume-IsQuiet,
  resume-IsHandling, on_event-IsHandling,
}

quiet-IsOrderly :
    (l : EventLoop) (turn : Turn) (scheduled : List Coroutine) (waiting : List Rest)
    → IsOrderly l
    → All IsBackground waiting
    → IsQuiet l.subscriber.pending turn
    → IsOrderly (work turn scheduled waiting l)
quiet-IsOrderly l turn scheduled waiting v w q = record {
  tracked = Shrinks-IsTracked q.shrinks v.tracked;
  knows = Knows-Shrinks l.handler q.shrinks v.knows;
  waiting = All-append IsBackground waiting (remaining turn.waits) w q.remains;
}

clear-IsOrderly : (l : EventLoop) → IsOrderly l → IsOrderly (clear l)
unfolding clear get
clear-IsOrderly l v = record {
  tracked = record {
    dict = tt;
    keyed = λ k p h. absurd (ground arith);
    single = λ j k p q hj hk c t. absurd (ground arith);
  };
  knows = tt;
  waiting = v.waiting;
}

receive-IsOrderly :
    (now : String) (event : ClearanceEvent) (h : Option Rest) (l : EventLoop)
    → IsOrderly l
    → IsOrderly (receive_event now event h l)
receive-IsOrderly now event none l v =
    let turn = on_event-IsHandling now event l.subscriber v.tracked in
    record { tracked = turn.tracked; knows = turn.knows; waiting = v.waiting }
receive-IsOrderly now event (some r) l v = v

handled-IsOrderly :
    (o : Outcome) (h : Option Rest) (l : EventLoop)
    → IsOrderly l
    → Knows h l.subscriber.pending
    → IsOrderly (handle_outcome o h l)
handled-IsOrderly o none l v k = v
handled-IsOrderly o (some r) l v k =
    let turn = resume-IsHandling o r l.subscriber v.tracked k in
    record { tracked = turn.tracked; knows = turn.knows; waiting = v.waiting }

begin_picked-IsOrderly :
    (o : Option (Coroutine × List Coroutine)) (l : EventLoop)
    → IsOrderly l
    → IsOrderly (begin_picked o l)
begin_picked-IsOrderly none l v = v
begin_picked-IsOrderly (some (c, others)) l v =
    quiet-IsOrderly l (begin_task c l.subscriber) others l.waiting v v.waiting
      (begin_task-IsQuiet c l.subscriber)

wake_picked-IsOrderly :
    (outcome : Outcome) (i : ℕ) (o : Option (Rest × List Rest)) (l : EventLoop)
    → pick i l.waiting ≡ o
    → IsOrderly l
    → IsOrderly (wake_picked outcome o l)
wake_picked-IsOrderly outcome i none l e v = v
wake_picked-IsOrderly outcome i (some (r, others)) l e v =
    let (quiet, rest) = pick-All IsBackground i l.waiting r others e v.waiting in
    quiet-IsOrderly l (resume outcome r l.subscriber) l.scheduled others v rest
      (resume-IsQuiet outcome r l.subscriber quiet)

step-IsOrderly : (a : Action) (l : EventLoop) → IsOrderly l → IsOrderly (step a l)
unfolding step
step-IsOrderly (receive now event) l v = receive-IsOrderly now event l.handler l v
step-IsOrderly (handled o) l v = handled-IsOrderly o l.handler l v v.knows
step-IsOrderly (run_task i) l v = begin_picked-IsOrderly (pick i l.scheduled) l v
step-IsOrderly (wake i o) l v = wake_picked-IsOrderly o i (pick i l.waiting) l refl v
step-IsOrderly (press r action) l v = record {
  tracked = v.tracked;
  knows = v.knows;
  waiting = v.waiting;
}
step-IsOrderly cancel_tasks l v = record { tracked = v.tracked; knows = v.knows; waiting = tt }
step-IsOrderly stop_client l v = clear-IsOrderly l v

run-IsOrderly : (actions : List Action) (l : EventLoop) → IsOrderly l → IsOrderly (run actions l)
unfolding run
run-IsOrderly [] l v = v
run-IsOrderly (a ∷ actions) l v = run-IsOrderly actions (step a l) (step-IsOrderly a l v)

-- In every order of events, background tasks, answers of the notifier, button presses and stops,
-- whichever calls raise: the pending map of a new subscriber has each request id once and files each
-- block under its own, and two pending blocks for one container and one target are one block.
pub run-IsTracked :
    (categories : Option (List String)) (actions : List Action)
    → IsTracked (run actions (started (new_subscriber categories))).subscriber.pending
run-IsTracked categories actions =
    (run-IsOrderly actions (started (new_subscriber categories)) start).tracked
  where
    start : IsOrderly (started (new_subscriber categories))
    start =
        unfold started new_subscriber get in
        record {
          tracked = record {
            dict = tt;
            keyed = λ k p h. absurd (ground arith);
            single = λ j k p q hj hk c t. absurd (ground arith);
          };
          knows = tt;
          waiting = tt;
        }
