-- ===== src/Client/Subscriber/Silent.antt =====
-- client/subscriber.py: a subscriber that is opted in to no category of popups.
use terok_clearance.Common.{
  ℕ, String, Option, none, some, List, [], ◌∷◌, string_eq, contains, filter, ◌≡◌, refl, ◌∙◌, All,
  All-append,
}
use terok_clearance.Domain.Events.{ClearanceEvent}
use terok_clearance.Client.Pending.{new_subscriber, all_notify_categories}
use terok_clearance.Client.Subscriber.{Coroutine, Rest, Outcome, Turn, begin_task, resume}
use terok_clearance.Client.Subscriber.Dispatch.{on_event}
use terok_clearance.Client.Subscriber.Loop.{
  EventLoop, Action, receive, handled, run_task, wake, press, cancel_tasks, stop_client, step, run,
  started, pick, receive_event, handle_outcome, begin_picked, wake_picked, clear, called, work,
}
use terok_clearance.Client.Subscriber.Loop.Picks.{pick-All}
use terok_clearance.Client.Subscriber.Posts.{
  PostsNothing, IsNeeded, IsMute, begin_task-IsMute, resume-IsMute, on_event-IsMuted,
}

record IsSilent (l : EventLoop) : Type 0 where
  categories : l.subscriber.enabled_categories ≡ []
  scheduled : All IsNeeded l.scheduled
  calls : All PostsNothing l.calls

work-IsSilent :
    (l : EventLoop) (turn : Turn) (scheduled : List Coroutine) (waiting : List Rest)
    → IsSilent l
    → All IsNeeded scheduled
    → IsMute l.subscriber turn
    → IsSilent (work turn scheduled waiting l)
work-IsSilent l turn scheduled waiting v n m = record {
  categories = m.categories ∙ v.categories;
  scheduled = n;
  calls = All-append PostsNothing (called turn.waits) l.calls m.calls v.calls;
}

receive-IsSilent :
    (now : String) (event : ClearanceEvent) (h : Option Rest) (l : EventLoop)
    → IsSilent l
    → IsSilent (receive_event now event h l)
receive-IsSilent now event (some r) l v = v
receive-IsSilent now event none l v =
    let m = on_event-IsMuted now event l.subscriber v.categories in
    let r = on_event now event l.subscriber in
    record {
      categories = m.categories;
      scheduled = All-append IsNeeded l.scheduled r.dispatched v.scheduled m.dispatched;
      calls = All-append PostsNothing (called r.turn.waits) l.calls m.calls v.calls;
    }

handled-IsSilent :
    (o : Outcome) (h : Option Rest) (l : EventLoop) → IsSilent l → IsSilent (handle_outcome o h l)
handled-IsSilent o none l v = v
handled-IsSilent o (some r) l v =
    let m = resume-IsMute o r l.subscriber in
    record {
      categories = m.categories ∙ v.categories;
      scheduled = v.scheduled;
      calls =
          All-append PostsNothing (called (resume o r l.subscriber).waits) l.calls m.calls v.calls;
    }

begin_picked-IsSilent :
    (i : ℕ) (o : Option (Coroutine × List Coroutine)) (l : EventLoop)
    → pick i l.scheduled ≡ o
    → IsSilent l
    → IsSilent (begin_picked o l)
begin_picked-IsSilent i none l e v = v
begin_picked-IsSilent i (some (c, others)) l e v =
    let (needed, rest) = pick-All IsNeeded i l.scheduled c others e v.scheduled in
    work-IsSilent l (begin_task c l.subscriber) others l.waiting v rest
      (begin_task-IsMute c l.subscriber needed)

wake_picked-IsSilent :
    (o : Outcome) (p : Option (Rest × List Rest)) (l : EventLoop)
    → IsSilent l
    → IsSilent (wake_picked o p l)
wake_picked-IsSilent o none l v = v
wake_picked-IsSilent o (some (r, others)) l v =
    work-IsSilent l (resume o r l.subscriber) l.scheduled others v v.scheduled
      (resume-IsMute o r l.subscriber)

step-IsSilent : (a : Action) (l : EventLoop) → IsSilent l → IsSilent (step a l)
unfolding step clear
step-IsSilent (receive now event) l v = receive-IsSilent now event l.handler l v
step-IsSilent (handled o) l v = handled-IsSilent o l.handler l v
step-IsSilent (run_task i) l v = begin_picked-IsSilent i (pick i l.scheduled) l refl v
step-IsSilent (wake i o) l v = wake_picked-IsSilent o (pick i l.waiting) l v
step-IsSilent (press r action) l v = record {
  categories = v.categories;
  scheduled = All-append IsNeeded l.scheduled _ v.scheduled (refl, tt);
  calls = v.calls;
}
step-IsSilent cancel_tasks l v = record {
  categories = v.categories;
  scheduled = tt;
  calls = v.calls;
}
step-IsSilent stop_client l v = record {
  categories = v.categories;
  scheduled = v.scheduled;
  calls = v.calls;
}

run-IsSilent : (actions : List Action) (l : EventLoop) → IsSilent l → IsSilent (run actions l)
unfolding run
run-IsSilent [] l v = v
run-IsSilent (a ∷ actions) l v = run-IsSilent actions (step a l) (step-IsSilent a l v)

-- A new subscriber that is given no category that there is posts no popup: in every order of events,
-- tasks, answers, presses and stops, it only closes popups, binds actions and sends verdicts.
pub run-PostsNothing :
    (given : List String) (actions : List Action)
    → filter (λ category. contains category all_notify_categories) given ≡ []
    → All PostsNothing (run actions (started (new_subscriber (some given)))).calls
run-PostsNothing given actions h =
    (run-IsSilent actions (started (new_subscriber (some given))) start).calls
  where
    start : IsSilent (started (new_subscriber (some given)))
    start = unfold started new_subscriber in record { categories = h; scheduled = tt; calls = tt }
