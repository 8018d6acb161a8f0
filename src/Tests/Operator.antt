-- ===== src/Tests/Operator.antt =====
-- The operator's client at concrete connections.
use Prim.Native.Nat.{min, ◌^◌}
use terok_clearance.Common.{
  ℕ, Bool, true, false, some, List, [], ◌∷◌, Result, ok, raise, ◌≡◌, refl, inl, inr, arith, length,
}
use terok_clearance.Common.{contains, get, strip, int_of_text}
use terok_clearance.Common.Int.{negsuc}
use terok_clearance.Notifications.{Notification, invoke_action}
use terok_clearance.Terminal.{Terminal, answer, handle_input}
use terok_clearance.Terminal.Answers.{IsListed, answer-IsListed}
use terok_clearance.Common.{str_of_ℕ}
use terok_clearance.Domain.Events.{Dossier}
use terok_clearance.Client.Rendering.{blocked_body}
use terok_clearance.Client.Rendering.Lines.{AreLines, line_feeds}
use terok_clearance.Client.Connection.{Failure, disconnected, ClearanceClient, new_client}
use terok_clearance.Client.Connection.Whole.{IsClosed}
use terok_clearance.Client.Rpc.{set_mute}
use terok_clearance.Client.Stream.{Round, run_rounds, opened, max_reconnect_backoff}
use terok_clearance.Client.Stream.Backoff.{IsSteady, Fails, backoff_lem}

abbrev live : ClearanceClient
live = record new_client {
  sub_transport = some 1;
  rpc_transport = some 2;
  sub_proxy = some 1;
  rpc_proxy = some 2;
}

new_client-IsClosed : IsClosed new_client
new_client-IsClosed = record {
  sub_transport = refl;
  rpc_transport = refl;
  sub_proxy = refl;
  rpc_proxy = refl;
}

abbrev muted_reply : Result Failure Bool
muted_reply = ok true

muted_live : set_mute muted_reply live ≡ ok (some true)
unfolding set_mute
muted_live = refl

abbrev lost : Round
lost = record {
  events = [];
  stopping = false;
  poked = false;
  first = raise disconnected;
  second = raise disconnected;
}

abbrev half : Round
half = record lost { first = ok 3 }

abbrev outage : List Round
outage = lost ∷ half ∷ lost ∷ []

new_stream-IsSteady : IsSteady (opened new_client)
new_stream-IsSteady = record {
  positive = omega arith;
  capped = omega arith;
  whole = inl new_client-IsClosed;
}

outage-Fails : Fails outage
outage-Fails = (
  refl,
  refl,
  inl (disconnected, refl),
  (refl, refl, inr (3, disconnected, refl, refl), (refl, refl, inl (disconnected, refl), tt)),
)

backoff_lem_example :
    (run_rounds outage (opened live)).backoff ≡ min (2 ^ length outage) max_reconnect_backoff
backoff_lem_example = backoff_lem outage live refl outage-Fails

abbrev request : Notification
request = record {
  nid = 7;
  summary = "Blocked: example.org:443";
  body = "";
  actions = ("allow", "Allow") ∷ ("deny", "Deny") ∷ [];
  replaces_id = 0;
  timeout_ms = negsuc 0;
  container_id = "0123456789ab";
  container_name = "";
  project = "";
  task_id = "";
  task_name = "";
}

abbrev terminal : Terminal ℕ
terminal = record {
  pending = (7, request) ∷ [];
  notifier = record { next_id = 8; callbacks = (7, 3) ∷ [] };
  stop = false;
}

allowed_seven : (handle_input " A  7\n" terminal).1 ≡ answer (some (3, "allow"))
unfolding handle_input strip contains int_of_text get invoke_action
allowed_seven = refl

answer-IsListed_example : IsListed 3 "allow" terminal (handle_input " A  7\n" terminal).0
answer-IsListed_example = answer-IsListed " A  7\n" terminal allowed_seven

abbrev shown : Dossier
shown = ("project", "demo") ∷ ("task", "7") ∷ []

shown_body :
    blocked_body shown "0123456789ab" "TCP" 3 "10:00:00"
    ≡ "Task: demo/7\nProtocol: TCP\nBlocked 3 times since 10:00:00"
unfolding blocked_body get str_of_ℕ
shown_body = refl

shown-AreLines : AreLines shown
unfolding line_feeds
shown-AreLines = (refl, (refl, tt))
