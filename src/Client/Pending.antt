-- ===== src/Client/Pending.antt =====
-- client/subscriber.py: the state of `EventSubscriber`.
use terok_clearance.Common.{
  ℕ, String, Option, none, some, List, [], ◌∷◌, Dict, string_eq, nat_eq, contains, filter,
}
use terok_clearance.Domain.Events.{Dossier}

abbrev pub notify_blocked : String
notify_blocked = "blocked"

abbrev pub notify_verdict : String
notify_verdict = "verdict"

abbrev pub notify_shield_up : String
notify_shield_up = "shield_up"

abbrev pub notify_shield_down : String
notify_shield_down = "shield_down"

abbrev pub notify_container_started : String
notify_container_started = "container_started"

abbrev pub notify_container_exited : String
notify_container_exited = "container_exited"

-- `ALL_NOTIFY_CATEGORIES`
abbrev pub all_notify_categories : List String
all_notify_categories =
    notify_blocked ∷ notify_verdict ∷ notify_shield_up ∷ notify_shield_down
    ∷ notify_container_started ∷ notify_container_exited ∷ []

-- `_PendingBlock`
pub record PendingBlock : Type 0 where
  pub notification_id : ℕ
  pub container : String
  pub request_id : String
  pub target : String
  pub dossier : Dossier
  pub count : ℕ
  pub first_seen : String

pub record EventSubscriber : Type 0 where
  pub enabled_categories : List String
  pub pending : Dict String PendingBlock
  pub shield_down_notifs : Dict String ℕ

-- `__init__`
unfoldable pub new_subscriber : Option (List String) → EventSubscriber
new_subscriber enabled_categories = record {
  enabled_categories = elim enabled_categories [
    | none ↦ all_notify_categories
    | some given ↦ filter (λ category. contains category all_notify_categories) given
  ];
  pending = [];
  shield_down_notifs = [];
}
