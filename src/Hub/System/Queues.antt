-- ===== src/Hub/System/Queues.antt =====
-- hub/server.py: the text rule of the wire and the subscribers' queues, along every schedule.
use terok_clearance.Common.{String, true, Option, List, ◌∷◌, ◌≡◌, refl, string_eq, nat_eq, All}
use terok_clearance.Domain.Events.{ClearanceEvent}
use terok_clearance.Hub.Payload.{Fields}
use terok_clearance.Hub.Translate.Clean.{IsClean}
use terok_clearance.Hub.State.{Hub}
use terok_clearance.Hub.Relay.{admitted, admit, binds, event_target}
use terok_clearance.Hub.System.{Action, started, run}
use terok_clearance.Hub.System.Knowing.{Knowledge}
use terok_clearance.Hub.Invariant.{IsFresh}
use terok_clearance.Hub.System.Waiting.{waiting-All}
use terok_clearance.Hub.System.WireText.{
  IsWireKey, IsWireBinding, admitted-IsClean, outcome-IsClean, or_else-IsWire,
}

-- What the wire's rule says of a binding does not depend on the log.
abbrev pub WireKnowledge : Knowledge
WireKnowledge log k b = IsWireBinding k b

WireKnowledge-admitted :
    (own : Option String) (key : IsWireKey own) (hub : Hub) (raw : Fields) (e : ClearanceEvent)
    (log : List ClearanceEvent)
    → hub.container ≡ own
    → admit hub raw ≡ admitted e
    → binds e ≡ true
    → WireKnowledge (e ∷ log) e.request_id (e.container, event_target e)
WireKnowledge-admitted own key hub raw e log same adm bind =
    let c = admitted-IsClean own hub raw e same key adm in
    record {
      request_id = c.request_id;
      container = c.container;
      target = or_else-IsWire 256 e.domain e.dest c.domain c.dest;
    }

-- For a hub that starts fresh, serving every container or one whose key is printable and short:
-- whatever readers, clients and shield send, and in whatever order, of every event that waits for a
-- subscriber the container, request id, destination, domain, action and reason and each value of the
-- dossier are printable ASCII within their caps, 512 characters for the reason and 256 for the
-- others. Nothing is said of the keys of a dossier.
pub queues-IsClean :
    (actions : List Action) (hub : Hub)
    → IsFresh hub
    → IsWireKey hub.container
    → All (λ s. All IsClean s.queue) (run actions (started hub)).hub.subscribers
queues-IsClean actions hub fresh key =
    waiting-All IsClean WireKnowledge hub.container (λ e log k b p. p)
      (WireKnowledge-admitted hub.container key)
      (λ h raw e same adm. admitted-IsClean hub.container h raw e same key adm)
      (λ v answer log f. outcome-IsClean v answer f) actions hub fresh refl
