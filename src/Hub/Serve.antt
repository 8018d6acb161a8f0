-- ===== src/Hub/Serve.antt =====
-- hub/server.py: the interface that `start` registers, on the hub's own methods, with the verdict client
-- (verdict/client.py) and the helper (verdict/interface.py, verdict/server.py) behind it; and `serve`.
pub mod Applied
use terok_clearance.Common.{
  ℕ, String, Bool, true, false, Option, none, some, List, Result, ok, raise, ◌>>=◌,
}
use terok_clearance.Wire.Errors.{ClearanceError}
use terok_clearance.Wire.Interface.{Clearance1}
use terok_clearance.Hub.State.{Hub}
use terok_clearance.Hub.Verdict.{InFlight, Answer, VerdictError, apply_verdict}
use terok_clearance.Hub.Mute.{set_mute, mutes}
use terok_clearance.Hub.Subscription.{subscribe}
use terok_clearance.Hub.Lifecycle.{StartFailure, start, stop}
use terok_clearance.Verdict.Client.{VerdictClient, CallError, HelperReply, Attempt, apply}
use terok_clearance.Verdict.Shield.{Fate, answered, apply_reply}
use terok_clearance.Verdict.Server.{VerdictServer, apply_shield}

-- `Apply` of a helper on its own callable, as a reply.
abbrev pub as_reply : Option (Bool × String) → Option HelperReply
as_reply none = none
as_reply (some (done, stderr)) = some (record { ok = done; stderr = some stderr })

unfoldable pub apply_call :
    (String → List String → Fate) → VerdictServer → String → String → String → Option HelperReply
unfolding apply_shield apply_reply
apply_call spawn helper container dest action =
    let (done, stderr) = apply_shield spawn container dest action helper in
    as_reply (apply_reply (answered done stderr))

-- The call of `VerdictClient.apply`, of a client whose two attempts meet this.
unfoldable pub answer_of : VerdictClient → Attempt → Attempt → InFlight → Result CallError Answer
unfolding apply
answer_of client first second v = (apply first second v.container v.dest v.action client).1 >>= λ r.
    ok (record { ok = r.0; stderr = r.1 })

-- The interface of a hub with what the client's call comes to for each verdict in flight.
unfoldable pub hub_interface : (InFlight → Result CallError Answer) → Clearance1 Hub ℕ VerdictError
unfolding subscribe apply_verdict set_mute mutes
hub_interface helper = record {
  event_stream_factory = subscribe;
  apply_verdict = apply_verdict helper;
  set_mute = set_mute;
  mutes = mutes;
}

abbrev pub until_signal :
    (Hub → Hub) → Hub × Result StartFailure (Unit {0}) → Hub × Result StartFailure (Unit {0})
until_signal meanwhile (hub, ok done) = (stop (meanwhile hub), ok tt)
until_signal meanwhile (hub, raise e) = (hub, raise e)

-- `serve`, with what happens to the hub until the signal
unfoldable pub serve : Bool → Bool → (Hub → Hub) → Hub → Hub × Result StartFailure (Unit {0})
unfolding start stop
serve ingester server meanwhile hub = until_signal meanwhile (start ingester server hub)
