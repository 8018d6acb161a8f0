-- ===== src/Hub/Desk/Once.antt =====
-- hub/server.py: how often shield applies a verdict on one request.
use terok_clearance.Common.{ℕ, ◌+◌, String, List, [], ◌∷◌}
use terok_clearance.Hub.State.{Hub}
use terok_clearance.Hub.System.{System, Action, step}
use terok_clearance.Hub.Desk.View.{view, command}
use terok_clearance.Hub.Desk.Slots.{asks, applies}

-- How often the hub sends on an event that asks about the request.
unfoldable pub asked : String → List Action → System → ℕ
unfolding step
asked k [] s = 0
asked k (action ∷ rest) s = asks k (command action s) + asked k rest (step action s)

-- How often shield applies a verdict on the request.
unfoldable pub applied : String → List Action → System → ℕ
unfolding step
applied k [] s = 0
applied k (action ∷ rest) s = applies k (command action s) (view s) + applied k rest (step action s)
