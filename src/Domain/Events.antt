-- ===== src/Domain/Events.antt =====
-- domain/events.py: the verdict vocabulary, the dossier and `ClearanceEvent`.
use terok_clearance.Common.{String, Bool, false, List, [], ◌∷◌, Dict}
use terok_clearance.Common.Int.{ℤ, pos}

-- `VERDICT_ACTIONS`
abbrev pub verdict_actions : List String
verdict_actions = "allow" ∷ "deny" ∷ []

abbrev pub Dossier : Type 0
Dossier = Dict String String

abbrev pub dossier_project : String
dossier_project = "project"

abbrev pub dossier_task : String
dossier_task = "task"

abbrev pub dossier_name : String
dossier_name = "name"

abbrev pub dossier_container_name : String
dossier_container_name = "container_name"

pub record ClearanceEvent : Type 0 where
  pub type : String
  pub container : String
  pub request_id : String
  pub dest : String
  pub port : ℤ
  pub proto : ℤ
  pub domain : String
  pub action : String
  pub ok : Bool
  pub reason : String
  pub dossier : Dossier

-- `ClearanceEvent(type=…, container=…)` with the defaults of the other fields.
unfoldable pub bare_event : String → String → ClearanceEvent
bare_event type container = record {
  type = type;
  container = container;
  request_id = "";
  dest = "";
  port = pos 0;
  proto = pos 0;
  domain = "";
  action = "";
  ok = false;
  reason = "";
  dossier = [];
}
