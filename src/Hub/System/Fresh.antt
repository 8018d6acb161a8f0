-- ===== src/Hub/System/Fresh.antt =====
-- A hub before it has heard anything.
use terok_clearance.Common.{refl}
use terok_clearance.Hub.State.{Hub}
use terok_clearance.Hub.Invariant.{IsFresh, fresh-IsValid}
use terok_clearance.Hub.System.{started}
use terok_clearance.Hub.System.Knowing.{Knowledge, IsSound}

pub started-IsSound :
    (P : Knowledge) (hub : Hub) → IsFresh hub → IsSound P hub.container (started hub)
started-IsSound P hub h = record {
  valid = fresh-IsValid hub h;
  container = refl;
  live = rw h.live_verdicts tt;
  flights = tt;
}
