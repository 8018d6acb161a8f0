-- ===== src/Client/Subscriber/Loop.antt =====
-- client/subscriber.py: an `EventSubscriber` on its event loop. The client hands over one event at a
-- time and waits for its handler; the background tasks run between, in any order.
pub mod Picks
use terok_clearance.Common.{ℕ, zero, suc, String, Option, none, some, List, [], ◌∷◌, ◌++◌}
use terok_clearance.Domain.Events.{ClearanceEvent}
use terok_clearance.Client.Pending.{EventSubscriber}
use terok_clearance.Client.Subscriber.{
  Coroutine, send_verdict, Rest, Call, Outcome, Routing, Turn, begin_task, resume,
}
use terok_clearance.Client.Subscriber.Dispatch.{Reaction, Hook, on_event}

-- The subscriber; the handler that the client waits for; the tasks of `_tasks`, those that have not
-- begun and those that wait; and the calls and the hooks so far, the newest first.
pub record EventLoop : Type 0 where
  pub subscriber : EventSubscriber
  pub handler : Option Rest
  pub scheduled : List Coroutine
  pub waiting : List Rest
  pub calls : List Call
  pub hooks : List Hook

pub data Action : Type 0 where
  -- the client hands over an event, at a time of day
  receive : String → ClearanceEvent → Action
  -- the call that the handler waits for is done
  handled : Outcome → Action
  -- a scheduled task begins, by its place
  run_task : ℕ → Action
  -- the call that a waiting task waits for is done
  wake : ℕ → Outcome → Action
  -- a button is pressed: the callback of a prompt is called with an action
  press : Routing → String → Action
  -- `stop` up to its first await
  cancel_tasks : Action
  -- the end of `stop`, once the cancelled tasks have settled
  stop_client : Action

-- The element at a place, and the others.
unfoldable pub pick : {A : Type 0} → ℕ → List A → Option (A × List A)
pick i [] = none
pick zero (x ∷ xs) = some (x, xs)
pick (suc i) (x ∷ xs) = elim (pick i xs) [ none ↦ none | some (y, ys) ↦ some (y, x ∷ ys) ]

abbrev pub left : Option (Call × Rest) → Option Rest
left none = none
left (some (call, rest)) = some rest

abbrev pub remaining : Option (Call × Rest) → List Rest
remaining none = []
remaining (some (call, rest)) = rest ∷ []

abbrev pub called : Option (Call × Rest) → List Call
called none = []
called (some (call, rest)) = call ∷ []

abbrev pub react : Reaction → EventLoop → EventLoop
react r l = record {
  subscriber = r.turn.subscriber;
  handler = left r.turn.waits;
  scheduled = l.scheduled ++ r.dispatched;
  waiting = l.waiting;
  calls = called r.turn.waits ++ l.calls;
  hooks = r.hooks ++ l.hooks;
}

abbrev pub handle : Turn → EventLoop → EventLoop
handle turn l = record l {
  subscriber = turn.subscriber;
  handler = left turn.waits;
  calls = called turn.waits ++ l.calls;
}

abbrev pub work : Turn → List Coroutine → List Rest → EventLoop → EventLoop
work turn scheduled waiting l = record l {
  subscriber = turn.subscriber;
  scheduled = scheduled;
  waiting = waiting ++ remaining turn.waits;
  calls = called turn.waits ++ l.calls;
}

-- An event is handed over only when the last one's handler is done.
abbrev pub receive_event : String → ClearanceEvent → Option Rest → EventLoop → EventLoop
receive_event now event none l = react (on_event now event l.subscriber) l
receive_event now event (some rest) l = l

abbrev pub handle_outcome : Outcome → Option Rest → EventLoop → EventLoop
handle_outcome outcome none l = l
handle_outcome outcome (some rest) l = handle (resume outcome rest l.subscriber) l

abbrev pub begin_picked : Option (Coroutine × List Coroutine) → EventLoop → EventLoop
begin_picked none l = l
begin_picked (some (c, others)) l = work (begin_task c l.subscriber) others l.waiting l

abbrev pub wake_picked : Outcome → Option (Rest × List Rest) → EventLoop → EventLoop
wake_picked outcome none l = l
wake_picked outcome (some (rest, others)) l =
    work (resume outcome rest l.subscriber) l.scheduled others l

-- The callback of `_handle_connection_blocked`
abbrev pub dispatch_verdict : Routing → String → EventLoop → EventLoop
dispatch_verdict r action l = record l {
  scheduled = l.scheduled ++ (send_verdict r.container r.request_id r.target action ∷ []);
}

-- `stop` cancels every task that there is.
abbrev pub cancel : EventLoop → EventLoop
cancel l = record l { scheduled = []; waiting = [] }

-- `stop` ends the client's stream, with the handler that it waits for, and clears the maps. A task
-- that was dispatched since the others were cancelled goes on.
unfoldable pub clear : EventLoop → EventLoop
clear l = record l {
  subscriber = record l.subscriber { pending = []; shield_down_notifs = [] };
  handler = none;
}

unfoldable pub step : Action → EventLoop → EventLoop
unfolding pick begin_task resume on_event clear
step (receive now event) l = receive_event now event l.handler l
step (handled outcome) l = handle_outcome outcome l.handler l
step (run_task i) l = begin_picked (pick i l.scheduled) l
step (wake i outcome) l = wake_picked outcome (pick i l.waiting) l
step (press r action) l = dispatch_verdict r action l
step cancel_tasks l = cancel l
step stop_client l = clear l

unfoldable pub run : List Action → EventLoop → EventLoop
unfolding step
run [] l = l
run (a ∷ actions) l = run actions (step a l)

unfoldable pub started : EventSubscriber → EventLoop
started s = record {
  subscriber = s;
  handler = none;
  scheduled = [];
  waiting = [];
  calls = [];
  hooks = [];
}
