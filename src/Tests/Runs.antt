-- ===== src/Tests/Runs.antt =====
-- Schedules of the hub and its callers.
use terok_clearance.Common.{
  List, ℕ, String, true, some, [], ◌∷◌, ◌≡◌, refl, ap, string_eq, put, get, contains, ok, All,
  length, ◌+◌, ◌-◌, ltb, none_if,
}
use terok_clearance.Domain.Events.{verdict_actions, bare_event}
use terok_clearance.Wire.Sanitize.{sanitize, clean, clean_char, is_printable}
use terok_clearance.Hub.Payload.{
  get_field, item, int_of, str_of, text, int, array, object, Fields, end, field,
}
use terok_clearance.Hub.Translate.{translate_reader_event, text_or_empty}
use terok_clearance.Hub.Translate.Clean.{IsClean}
use terok_clearance.Hub.Ingester.{Line, decoded, malformed, undecodable, handle_client}
use terok_clearance.Hub.Ingester.Lines.{ingested}
use terok_clearance.Hub.Invariant.{IsValid}
use terok_clearance.Hub.Relay.{admit, relay_reader_event, fan_out, update_live_verdicts}
use terok_clearance.Hub.Mute.{mute_key}
use terok_clearance.Hub.Verdict.{InFlight, flight, begin_verdict}
use terok_clearance.Hub.Verdict.Begin.{begin_bound}
use terok_clearance.Common.Int.{pos}
use terok_clearance.Hub.Subscription.{subscribe}
use terok_clearance.Hub.Cleanup.{cleanup_stale_verdicts}
use terok_clearance.Hub.Cleanup.Expiry.{unexpired, cleanup_lem}
use terok_clearance.Hub.System.{relay, run, step, started}
use terok_clearance.Hub.System.Valid.{reachable-IsValid}
use terok_clearance.Hub.System.Authorisation.{Prompted, authorised}
use terok_clearance.Hub.System.Confinement.{confined}
use terok_clearance.Hub.System.Queues.{queues-IsClean}
use terok_clearance.Hub.System.Kinds.{IsDocumented, queues-IsDocumented}
use terok_clearance.Tests.{
  c1, allowing, allowing_begun, known_action, idle, own_hub, idle-IsFresh, own_hub-IsFresh, pending,
  exited, blocked, prompted, prompted-IsValid,
}

authorised_example :
    Prompted (run blocked (started idle)).log "r1" (c1, "192.0.2.7")
    × (contains "allow" verdict_actions ≡ true)
    × (allowing.container ≡ c1)
    × (allowing.request_id ≡ "r1")
    × (allowing.dest ≡ "192.0.2.7")
    × (allowing.action ≡ "allow")
authorised_example = authorised blocked idle c1 "r1" "192.0.2.7" "allow" idle-IsFresh allowing_begun

queues-IsClean_example : All (λ s. All IsClean s.queue) (run blocked (started idle)).hub.subscribers
queues-IsClean_example = queues-IsClean blocked idle idle-IsFresh tt

queues-IsDocumented_example :
    All (λ s. All IsDocumented s.queue) (run blocked (started idle)).hub.subscribers
queues-IsDocumented_example = queues-IsDocumented blocked idle idle-IsFresh

reachable-IsValid_example : IsValid (run blocked (started idle)).hub
reachable-IsValid_example = reachable-IsValid blocked idle idle-IsFresh

-- A reader that names another container.
abbrev foreign : Fields
foreign = field "type" (text "pending") (
    field "container" (text "other") (
      field "id" (text "r1") (
        field "dest" (text "192.0.2.7")
          (field "port" (int (pos 443)) (field "proto" (int (pos 6)) end)))))

own_bound :
    get "r1" (run (relay 5 foreign ∷ []) (started own_hub)).hub.live_verdicts
    ≡ some (c1, "192.0.2.7")
unfolding run step subscribe relay_reader_event translate_reader_event update_live_verdicts fan_out
    put get get_field item int_of bare_event contains sanitize str_of clean clean_char is_printable
    text_or_empty
own_bound = refl

abbrev own_flight : InFlight
own_flight =
    flight c1 "r1" "192.0.2.7" "allow" (c1, "192.0.2.7")
      (get "r1" (run (relay 5 foreign ∷ []) (started own_hub)).hub.live_verdicts_ts)

own_begun :
    (begin_verdict c1 "r1" "192.0.2.7" "allow" (run (relay 5 foreign ∷ []) (started own_hub)).hub).1
    ≡ ok own_flight
own_begun =
    ap (λ r. r.1)
      (begin_bound (run (relay 5 foreign ∷ []) (started own_hub)).hub c1 "r1" "192.0.2.7" "allow"
        known_action own_bound)

confined_example :
    (own_flight.container ≡ c1)
    × All (λ w. w.container ≡ c1) (run (relay 5 foreign ∷ []) (started own_hub)).in_flight
confined_example =
    confined c1 (relay 5 foreign ∷ []) own_hub c1 "r1" "192.0.2.7" "allow" own_hub-IsFresh refl
      own_begun

prompted_ttl : prompted.verdict_ttl ≡ some 300
unfolding run step subscribe relay_reader_event admit contains get get_field translate_reader_event
    item int_of bare_event fan_out update_live_verdicts sanitize str_of clean put clean_char
    is_printable text_or_empty
prompted_ttl = refl

cleanup_lem_example :
    ((k : String)
      → get k (cleanup_stale_verdicts 400 prompted).0.live_verdicts
        ≡ unexpired 400 300 (get k prompted.live_verdicts_ts) (get k prompted.live_verdicts))
    × ((k : String)
        → get k (cleanup_stale_verdicts 400 prompted).0.live_verdicts_ts
          ≡ none_if (λ ts. ltb 300 (400 - ts)) (get k prompted.live_verdicts_ts))
    × ((cleanup_stale_verdicts 400 prompted).1
          + length (cleanup_stale_verdicts 400 prompted).0.live_verdicts_ts
        ≡ length prompted.live_verdicts_ts)
cleanup_lem_example = cleanup_lem 400 300 prompted prompted-IsValid prompted_ttl

alias_key : mute_key own_hub "alice" ≡ ok c1
unfolding mute_key get
alias_key = refl

-- An array and a malformed line before the report, and one that ends the connection after it.
abbrev lines : List (ℕ × Line)
lines =
    (1, decoded (array "[]"))
    ∷ (2, malformed)
    ∷ (5, decoded (object "{}" pending))
    ∷ (6, undecodable)
    ∷ (7, decoded (object "{}" exited))
    ∷ []

ingested_example : handle_client true lines idle ≡ (run (relay 5 pending ∷ []) (started idle)).hub
ingested_example = ingested true lines (started idle)
