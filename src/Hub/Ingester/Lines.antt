-- ===== src/Hub/Ingester/Lines.antt =====
-- hub/ingester.py: what of a reader's lines reaches the hub.
use terok_clearance.Common.{ℕ, Bool, true, false, List, [], ◌∷◌, ◌++◌, ◌≡◌, refl, if◌then◌else◌}
use terok_clearance.Hub.Payload.{Json, null, bool, int, float, text, array, object}
use terok_clearance.Hub.System.{System, Action, relay, run, step}
use terok_clearance.Hub.Ingester.{
  Line, blank, decoded, malformed, undecodable, overlong, sink, read_lines, handle_client,
}

-- The reader event of one JSON value: an object is one, anything else is none.
abbrev pub event_of : ℕ → Json → List Action
event_of now (object shown fields) = relay now fields ∷ []
event_of now _ = []

-- The reader events of a connection: the objects, in order, up to the line that ends it.
abbrev pub events_of : List (ℕ × Line) → List Action
events_of [] = []
events_of ((now, decoded json) ∷ rest) = event_of now json ++ events_of rest
events_of ((now, blank) ∷ rest) = events_of rest
events_of ((now, malformed) ∷ rest) = events_of rest
events_of ((now, undecodable) ∷ rest) = []
events_of ((now, overlong) ∷ rest) = []

read_lines-events :
    (lines : List (ℕ × Line)) (s : System) → read_lines lines s.hub ≡ (run (events_of lines) s).hub
unfolding read_lines sink run step
read_lines-events [] s = refl
read_lines-events ((now, blank) ∷ rest) s = read_lines-events rest s
read_lines-events ((now, malformed) ∷ rest) s = read_lines-events rest s
read_lines-events ((now, undecodable) ∷ rest) s = refl
read_lines-events ((now, overlong) ∷ rest) s = refl
read_lines-events ((now, decoded (object shown fields)) ∷ rest) s =
    read_lines-events rest (step (relay now fields) s)
read_lines-events ((now, decoded null) ∷ rest) s = read_lines-events rest s
read_lines-events ((now, decoded (bool b)) ∷ rest) s = read_lines-events rest s
read_lines-events ((now, decoded (int z)) ∷ rest) s = read_lines-events rest s
read_lines-events ((now, decoded (float shown value)) ∷ rest) s = read_lines-events rest s
read_lines-events ((now, decoded (text t)) ∷ rest) s = read_lines-events rest s
read_lines-events ((now, decoded (array shown)) ∷ rest) s = read_lines-events rest s

-- A reader that runs as the hub's user does to the hub exactly what its JSON objects do as reader
-- events, in order, up to the first line that cannot be read or decoded; blank lines, malformed JSON
-- and values that are no objects do nothing, and neither does a reader that runs as another user.
pub ingested :
    (same_user : Bool) (lines : List (ℕ × Line)) (s : System)
    → handle_client same_user lines s.hub ≡ (run (if same_user then events_of lines else []) s).hub
unfolding handle_client run
ingested true lines s = read_lines-events lines s
ingested false lines s = refl
