-- ===== src/Notifications/Hooks.antt =====
-- notifications/callback.py: the hooks that a consumer gives `CallbackNotifier`. A hook is a function
-- of the consumer's state.
use terok_clearance.Common.{ℕ, String, Option, none, some}
use terok_clearance.Notifications.{Notification, CallbackNotifier, notify}

-- The arguments of `__init__`.
pub record Hooks (S : Type 0) : Type 0 where
  pub on_notify : Option (Notification → S → S)
  pub on_container_started : Option (String → S → S)
  pub on_container_exited : Option (String → String → S → S)
  pub on_shield_up : Option (String → S → S)
  pub on_shield_down : Option (String → S → S)
  pub on_shield_disengaged : Option (String → S → S)

abbrev pub no_hooks : {S : Type 0} → Hooks S
no_hooks = record {
  on_notify = none;
  on_container_started = none;
  on_container_exited = none;
  on_shield_up = none;
  on_shield_down = none;
  on_shield_disengaged = none;
}

abbrev pub call_hook : {S A : Type 0} → Option (A → S → S) → A → S → S
call_hook none a s = s
call_hook (some hook) a s = hook a s

abbrev pub call_exit_hook :
    {S : Type 0} → Option (String → String → S → S) → String → String → S → S
call_exit_hook none container reason s = s
call_exit_hook (some hook) container reason s = hook container reason s

module _ {S : Type 0} (hooks : Hooks S) where
  -- `notify` with the call of its hook: the notifier, the consumer, and the identifier.
  unfoldable pub notify_hooked :
      {C : Type 0} → Notification → CallbackNotifier C → S → CallbackNotifier C × S × ℕ
  unfolding notify
  notify_hooked n notifier s =
      let (next, shown) = notify n notifier in (next, call_hook hooks.on_notify shown s, shown.nid)

  unfoldable pub on_container_started : String → S → S
  on_container_started container s = call_hook hooks.on_container_started container s

  unfoldable pub on_container_exited : String → String → S → S
  on_container_exited container reason s =
      call_exit_hook hooks.on_container_exited container reason s

  unfoldable pub on_shield_up : String → S → S
  on_shield_up container s = call_hook hooks.on_shield_up container s

  unfoldable pub on_shield_down : String → S → S
  on_shield_down container s = call_hook hooks.on_shield_down container s

  unfoldable pub on_shield_disengaged : String → S → S
  on_shield_disengaged container s = call_hook hooks.on_shield_disengaged container s
