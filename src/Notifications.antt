-- ===== src/Notifications.antt =====
-- notifications/callback.py: `CallbackNotifier`. A callback is a value of any type; calling one is the
-- result of the operation.
pub mod Hooks
pub mod Desktop
pub mod Dbus
use terok_clearance.Common.{
  ℕ, ◌+◌, String, Option, none, some, List, [], Dict, nat_eq, ◌==◌, get, put, remove, if◌then◌else◌,
}
use terok_clearance.Common.Int.{ℤ}

pub record Notification : Type 0 where
  pub nid : ℕ
  pub summary : String
  pub body : String
  pub actions : List (String × String)
  pub replaces_id : ℕ
  pub timeout_ms : ℤ
  pub container_id : String
  pub container_name : String
  pub project : String
  pub task_id : String
  pub task_name : String

-- `_next_id` and `_callbacks`
pub record CallbackNotifier (C : Type 0) : Type 0 where
  pub next_id : ℕ
  pub callbacks : Dict ℕ C

abbrev pub new_notifier : {C : Type 0} → CallbackNotifier C
new_notifier = record { next_id = 1; callbacks = [] }

module _ {C : Type 0} where
  -- `notify`: the state after it, and the notification that the hook is called with, whose `nid` is
  -- returned. The argument holds the other fields.
  unfoldable pub notify : Notification → CallbackNotifier C → CallbackNotifier C × Notification
  notify n notifier =
      if n.replaces_id == 0
      then (record notifier { next_id = notifier.next_id + 1 }, record n { nid = notifier.next_id })
      else (notifier, record n { nid = n.replaces_id })

  -- `on_action`
  unfoldable pub on_action : ℕ → C → CallbackNotifier C → CallbackNotifier C
  on_action nid callback notifier = record notifier {
    callbacks = put nid callback notifier.callbacks;
  }

  -- `close`
  unfoldable pub close : ℕ → CallbackNotifier C → CallbackNotifier C
  close nid notifier = record notifier { callbacks = remove nid notifier.callbacks }

  -- `disconnect`
  unfoldable pub disconnect : CallbackNotifier C → CallbackNotifier C
  disconnect notifier = record notifier { callbacks = [] }

  -- `invoke_action`: the callback that is called with the key, if there is one.
  unfoldable pub invoke_action :
      ℕ → String → CallbackNotifier C → CallbackNotifier C × Option (C × String)
  invoke_action nid key notifier = (
    record notifier { callbacks = remove nid notifier.callbacks },
    elim (get nid notifier.callbacks) [ none ↦ none | some callback ↦ some (callback, key) ],
  )
