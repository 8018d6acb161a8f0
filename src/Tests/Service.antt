-- ===== src/Tests/Service.antt =====
-- The TTL of the configuration, and a hub with its verdict helper, at concrete inputs.
use terok_clearance.Common.{
  ◌*◌, ◌==◌, nat_eq, discard, String, true, false, none, some, List, [], ◌∷◌, ◌≡◌, refl, string_eq,
  concat, contains, strip, lower, lower_char, str_of_ℕ, lstrip, is_space, ok, raise, key_error,
  value_error, if◌then◌else◌,
}
use terok_clearance.Common.Int.{pos}
use terok_clearance.Wire.Interface.{verdict_call}
use terok_clearance.Hub.Relay.{relay_reader_event}
use terok_clearance.Hub.Invariant.{fresh-IsValid}
use terok_clearance.Hub.Ttl.{take_digits, fraction, duration, parse_verdict_ttl, read_verdict_ttl}
use terok_clearance.Hub.Ttl.Printed.{parse_verdict_ttl-str_of_ℕ}
use terok_clearance.Hub.Serve.{apply_call, answer_of, hub_interface}
use terok_clearance.Hub.Serve.Applied.{ran, again, verdict_on, verdict_call-report}
use terok_clearance.Verdict.Client.{VerdictClient, Attempt, os_error, try_apply, ensure_connected}
use terok_clearance.Common.Utf8.{decode}
use terok_clearance.Hub.Ingester.Listener.{EventIngester, stop_ingester}
use terok_clearance.Verdict.Shield.{Fate, exited, report, run_shield, apply_reply}
use terok_clearance.Verdict.Server.{VerdictServer, apply_shield, new_server, find_shield_binary}
use terok_clearance.Wire.Socket.{Process}
use terok_clearance.Tests.{asked, asked_admitted, c1, idle, idle-IsFresh, pending, known_action}

half_minute :
    parse_verdict_ttl (some " 0.5 M ") ≡ ok (some (record { mantissa = 300; decimals = 1 }))
unfolding parse_verdict_ttl duration take_digits fraction strip lstrip is_space lower lower_char
    contains
half_minute = refl

no_expiry_read : read_verdict_ttl (ok (some "Never")) ≡ none
unfolding read_verdict_ttl parse_verdict_ttl strip lstrip is_space lower lower_char contains
no_expiry_read = refl

two_units : parse_verdict_ttl (some "1h30m") ≡ raise value_error
unfolding parse_verdict_ttl duration take_digits fraction strip lstrip is_space lower lower_char
    contains
two_units = refl

long_s : parse_verdict_ttl (some "5ſ") ≡ raise key_error
unfolding parse_verdict_ttl duration take_digits fraction strip lstrip is_space lower lower_char
    contains
long_s = refl

parse_verdict_ttl-str_of_ℕ_example :
    parse_verdict_ttl (some (concat (str_of_ℕ 36) "h"))
    ≡ ok (some (record { mantissa = 36 * 3600; decimals = 0 }))
parse_verdict_ttl-str_of_ℕ_example = parse_verdict_ttl-str_of_ℕ 36 3600 "h" refl

-- A helper with shield beside its interpreter.
abbrev helper : VerdictServer
helper = record { shield_binary = some "/opt/venv/bin/terok-shield"; server = true }

helper_built :
    new_server none
      (record { path = "/opt/venv/bin/terok-shield"; is_file = true; is_executable = true })
      none
    ≡ record helper { server = false }
unfolding new_server find_shield_binary
helper_built = refl

-- A shield that allows and does not deny.
abbrev shield : String → List String → Fate
shield binary [] = exited (pos 2) []
shield binary (action ∷ rest) = exited (if action == "allow" then pos 0 else pos 1) []

-- The helper was restarted: the old connection breaks, and a new one reaches it.
abbrev client : VerdictClient
client = record { transport = some 4; proxy = some 4; closed = [] }

abbrev first : Attempt
first = record {
  connect = raise (os_error "refused");
  call = λ c d a. raise (os_error "connection reset");
}

abbrev second : Attempt
second = record { connect = ok 5; call = λ c d a. ok (record { ok = true; stderr = some "" }) }

replied :
    apply_call shield helper c1 "192.0.2.7" "allow" ≡ some (record { ok = true; stderr = some "" })
unfolding apply_call apply_shield run_shield apply_reply report decode strip
replied = refl

failed : (try_apply first c1 "192.0.2.7" "allow" client).1 ≡ raise (os_error "connection reset")
unfolding try_apply ensure_connected
failed = refl

verdict_call-report_example :
    (verdict_call
      (hub_interface (answer_of client first second))
      c1
      "r1"
      "192.0.2.7"
      "allow"
      (relay_reader_event 5 pending idle).0).1
    ≡ verdict_on "allow" (shield "/opt/venv/bin/terok-shield" ("allow" ∷ c1 ∷ "192.0.2.7" ∷ [])) ran
verdict_call-report_example =
    verdict_call-report shield helper "/opt/venv/bin/terok-shield" asked "allow" idle 5 pending
      client first second (fresh-IsValid idle idle-IsFresh) asked_admitted refl refl known_action
      refl refl replied (again 5 "connection reset" failed refl refl)

-- Two readers are connected when the ingester stops.
abbrev two_readers : EventIngester
two_readers = record { server = true; clients = 2 ∷ 1 ∷ []; cancelled = [] }

abbrev bound : Process
bound = record { umask = 18; path = some true; calls = [] }

both_cancelled : stop_ingester two_readers bound ≡ (
  record { server = false; clients = []; cancelled = 1 ∷ 2 ∷ [] },
  record bound { path = none },
)
unfolding stop_ingester discard
both_cancelled = refl
