-- ===== src/Hub/System/Valid.antt =====
-- hub/server.py: the validity of the hub along every schedule.
use terok_clearance.Common.{List}
use terok_clearance.Hub.State.{Hub}
use terok_clearance.Hub.Invariant.{IsValid}
use terok_clearance.Hub.System.{Action, run, started}
use terok_clearance.Hub.System.Soundness.{run-IsSound}
use terok_clearance.Hub.Invariant.{IsFresh}
use terok_clearance.Hub.System.Fresh.{started-IsSound}

-- Whatever happens to a hub that starts fresh, in whatever order and with any number of verdicts in
-- flight: its two maps of pending verdicts stay dicts over the same request ids, and no subscriber's
-- queue is longer than its bound.
pub reachable-IsValid :
    (actions : List Action) (hub : Hub) → IsFresh hub → IsValid (run actions (started hub)).hub
reachable-IsValid actions hub fresh =
    (run-IsSound (λ log k b. Unit) hub.container (λ e log k b p. tt)
      (λ h raw e log same adm bind. tt) actions (started-IsSound (λ log k b. Unit) hub fresh)).valid
