-- ===== src/Notifications/Dbus/Factory.antt =====
-- notifications/factory.py: `create_notifier` and the `NullNotifier` that it falls back to.
use terok_clearance.Common.{ℕ, String, Result, ok, raise}
use terok_clearance.Notifications.Dbus.{
  BusFailure, unavailable, unforeseen, DbusNotifier, new_dbus_notifier, Setup, connect,
}

-- The notifier of a process.
pub data Notifier (C : Type 0) : Type 0 where
  -- `NullNotifier`, which has no state
  null : Notifier C
  dbus : DbusNotifier C → Notifier C

-- `NullNotifier.notify`
abbrev pub null_id : ℕ
null_id = 0

module _ {C : Type 0} where
  abbrev pub created :
      DbusNotifier C × Result BusFailure (Unit {0}) → Result BusFailure (Notifier C)
  created (n, ok done) = ok (dbus n)
  created (n, raise unavailable) = ok null
  created (n, raise unforeseen) = raise unforeseen

  -- `create_notifier`
  unfoldable pub create_notifier :
      (ℕ → Result BusFailure ℕ) → (ℕ → Setup) → ℕ → ℕ → String → Result BusFailure (Notifier C)
  unfolding connect
  create_notifier attempt setup host euid app_name =
      created (connect attempt setup host euid (new_dbus_notifier app_name))
