-- ===== src/Client/Rendering.antt =====
-- client/subscriber.py: how a container and a blocked connection are shown.
pub mod Lines
use Prim.Native.Nat.{ℕ}
use terok_clearance.Common.{
  ℕ, String, Bool, true, false, ◌&&◌, Option, none, some, List, [], ◌∷◌, string_eq, get, concat,
  truthy, or_else, ltb, str_of_ℕ, if◌then◌else◌,
}
use terok_clearance.Domain.Events.{
  Dossier, dossier_project, dossier_task, dossier_name, dossier_container_name,
}

-- `dossier.get(key, "")`
unfoldable pub entry : String → Dossier → String
entry key dossier = elim (get key dossier) [ none ↦ "" | some value ↦ value ]

-- Both keys of a task are there and not empty.
unfoldable pub names_task : Dossier → Bool
unfolding entry
names_task dossier = truthy (entry dossier_project dossier) && truthy (entry dossier_task dossier)

-- `_identity_label`
unfoldable pub identity_label : Dossier → String → String
unfolding names_task entry
identity_label dossier fallback_id =
    let name = entry dossier_name dossier in
    let core = concat (entry dossier_project dossier) (concat "/" (entry dossier_task dossier)) in
    if names_task dossier
    then if truthy name then concat core (concat " · " name) else core
    else or_else name fallback_id

-- `_identity_line`
unfoldable pub identity_line : Dossier → String → String
unfolding identity_label
identity_line dossier fallback_id =
    concat (if names_task dossier then "Task" else "Container")
      (concat ": " (identity_label dossier fallback_id))

-- `"\n".join(lines)`
unfoldable pub join_lines : List String → String
join_lines [] = ""
join_lines (line ∷ []) = line
join_lines (line ∷ next ∷ rest) = concat line (concat "\n" (join_lines (next ∷ rest)))

-- `_blocked_body`
unfoldable pub blocked_body : Dossier → String → String → ℕ → String → String
unfolding identity_line join_lines
blocked_body dossier fallback_id proto_name count first_seen =
    let again = concat "Blocked " (concat (str_of_ℕ count) (concat " times since " first_seen)) in
    join_lines (
      identity_line dossier fallback_id
      ∷ concat "Protocol: " proto_name
      ∷ (if ltb 1 count then again ∷ [] else []))

-- `_NotifyIdentityKwargs`
pub record NotifyIdentity : Type 0 where
  pub container_name : String
  pub project : String
  pub task_id : String
  pub task_name : String

-- `_notify_kwargs`
unfoldable pub notify_kwargs : Dossier → NotifyIdentity
unfolding entry
notify_kwargs dossier = record {
  container_name = or_else (entry dossier_container_name dossier) (entry dossier_name dossier);
  project = entry dossier_project dossier;
  task_id = entry dossier_task dossier;
  task_name = entry dossier_name dossier;
}
