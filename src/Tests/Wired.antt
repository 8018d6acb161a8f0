-- ===== src/Tests/Wired.antt =====
-- A subscriber with the terminal for its notifier, and the lines that the operator types.
use terok_clearance.Common.{
  false, none, some, [], ◌∷◌, ◌≡◌, refl, arith, string_eq, nat_eq, get, contains, ok, strip, lstrip,
  rstrip, is_space, lower, lower_char, int_of_text,
}
use terok_clearance.Common.Int.{pos}
use terok_clearance.Hub.Relay.{relay_reader_event}
use terok_clearance.Hub.Invariant.{fresh-IsValid}
use terok_clearance.Hub.Verdict.{begin_verdict, flight}
use terok_clearance.Notifications.{Notification}
use terok_clearance.Client.Pending.{EventSubscriber, PendingBlock}
use terok_clearance.Client.Subscriber.{Routing, routing, new_block, live_block_on}
use terok_clearance.Client.Subscriber.Loop.{started}
use terok_clearance.Client.Subscriber.Clicks.{Prompts}
use terok_clearance.Terminal.{Terminal, answer, no_pending, first_word, handle_input, has_key}
use terok_clearance.Terminal.Wired.{show_event}
use terok_clearance.Terminal.Wired.Commands.{Gives}
use terok_clearance.Terminal.Wired.Typed.{typed-IsBound}
use terok_clearance.Terminal.Wired.Repeated.{repeated_unlisted}
use terok_clearance.Tests.{asked, asked_admitted, c1, idle, idle-IsFresh, pending}

abbrev listening : EventSubscriber
listening = record {
  enabled_categories = "blocked" ∷ "verdict" ∷ [];
  pending = [];
  shield_down_notifs = [];
}

abbrev terminal : Terminal Routing
terminal = record { pending = []; notifier = record { next_id = 7; callbacks = [] }; stop = false }

listening-Prompts : Prompts asked (started listening)
unfolding started contains
listening-Prompts = record {
  idle = refl;
  unscheduled = refl;
  blocked = refl;
  shown = refl;
  targeted = refl;
}

allow_seven : Gives " Allow  7\n" "allow" 7
unfolding first_word strip lstrip rstrip is_space lower lower_char int_of_text contains
allow_seven = record { word = refl; command = refl; known = refl; argument = refl; number = refl }

typed-IsBound_example :
    ((show_event "09:00:00" asked listening terminal).0.waits ≡ none)
    × ((handle_input " Allow  7\n" (show_event "09:00:00" asked listening terminal).1).1
        ≡ answer (some (routing asked "192.0.2.7", "allow")))
    × ((begin_verdict c1 "r1" "192.0.2.7" "allow" (relay_reader_event 5 pending idle).0).1
        ≡ ok (
            flight c1 "r1" "192.0.2.7" "allow"
              (c1, "192.0.2.7")
              (get "r1" (relay_reader_event 5 pending idle).0.live_verdicts_ts)))
unfolding contains
typed-IsBound_example =
    typed-IsBound "09:00:00" asked listening listening-Prompts terminal
      (unfold live_block_on in refl) idle 5 pending (fresh-IsValid idle idle-IsFresh) asked_admitted
      refl allow_seven

-- The same connection is pending as the notification seven, and is blocked again.
abbrev first_block : PendingBlock
first_block = record (new_block asked "192.0.2.7" 1 "09:00:00" 7) { request_id = "r0" }

abbrev waiting : EventSubscriber
waiting = record listening { pending = ("r0", first_block) ∷ [] }

waiting-Prompts : Prompts asked (started waiting)
unfolding started contains
waiting-Prompts = record {
  idle = refl;
  unscheduled = refl;
  blocked = refl;
  shown = refl;
  targeted = refl;
}

abbrev seven : Notification
seven = record {
  nid = 7;
  summary = "Blocked: 192.0.2.7:443";
  body = "";
  actions = ("allow", "Allow") ∷ ("deny", "Deny") ∷ [];
  replaces_id = 0;
  timeout_ms = pos 0;
  container_id = c1;
  container_name = "";
  project = "";
  task_id = "";
  task_name = "";
}

abbrev listing_seven : Terminal Routing
listing_seven = record {
  pending = (7, seven) ∷ [];
  notifier = record { next_id = 8; callbacks = (7, routing asked "192.0.2.7") ∷ [] };
  stop = false;
}

repeated_unlisted_example :
    (get "r1" (show_event "09:05:00" asked waiting listing_seven).0.subscriber.pending
      ≡ some (new_block asked "192.0.2.7" 2 "09:00:00" 7))
    × (get 7 (show_event "09:05:00" asked waiting listing_seven).1.notifier.callbacks
        ≡ some (routing asked "192.0.2.7"))
    × (handle_input " Allow  7\n" (show_event "09:05:00" asked waiting listing_seven).1
        ≡ ((show_event "09:05:00" asked waiting listing_seven).1, no_pending (pos 7)))
repeated_unlisted_example =
    repeated_unlisted "09:05:00" asked waiting waiting-Prompts first_block
      (unfold live_block_on in refl) listing_seven (omega arith) (unfold has_key get in refl)
      allow_seven
