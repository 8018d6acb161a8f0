-- ===== src/Notifications/Dbus/Wire.antt =====
-- notifications/desktop.py: `notify` of `DbusNotifier`, and the call that it sends.
use terok_clearance.Common.{
  ℕ, String, Option, List, [], ◌∷◌, string_eq, nat_eq, or_else, Result, ok, raise,
}
use terok_clearance.Common.Int.{ℤ}
use terok_clearance.Client.Popups.{Hints}
use terok_clearance.Notifications.Desktop.{pango_escape}
use terok_clearance.Notifications.Dbus.{BusFailure, DbusNotifier, Setup, connect}

-- `actions_flat`
unfoldable pub flatten : List (String × String) → List String
flatten [] = []
flatten ((action_id, label) ∷ actions) = action_id ∷ label ∷ flatten actions

-- The arguments of `call_notify`
pub record WireNotify : Type 0 where
  pub app_name : String
  pub replaces_id : ℕ
  pub app_icon : String
  pub summary : String
  pub body : String
  pub actions : List String
  pub hints : Option Hints
  pub expire_timeout : ℤ

-- The arguments of `notify` that are used, the identity of a container not among them.
pub record NotifyCall : Type 0 where
  pub summary : String
  pub body : String
  pub actions : List (String × String)
  pub timeout_ms : ℤ
  pub hints : Option Hints
  pub replaces_id : ℕ
  pub app_icon : String

-- The call on the wire of an application, with the default icon.
unfoldable pub wire_notify : String → String → NotifyCall → WireNotify
unfolding pango_escape flatten
wire_notify app_name default_icon call = record {
  app_name = app_name;
  replaces_id = call.replaces_id;
  app_icon = or_else call.app_icon default_icon;
  summary = pango_escape call.summary;
  body = pango_escape call.body;
  actions = flatten call.actions;
  hints = call.hints;
  expire_timeout = call.timeout_ms;
}

module _ {C : Type 0} where
  abbrev pub send_on :
      String
      → NotifyCall
      → DbusNotifier C × Result BusFailure (Unit {0})
      → DbusNotifier C × Result BusFailure WireNotify
  send_on default_icon call (n, ok done) = (n, ok (wire_notify n.app_name default_icon call))
  send_on default_icon call (n, raise e) = (n, raise e)

  -- `notify`, up to the desktop's answer to the call
  unfoldable pub notify :
      (ℕ → Result BusFailure ℕ)
      → (ℕ → Setup)
      → ℕ
      → ℕ
      → String
      → NotifyCall
      → DbusNotifier C
      → DbusNotifier C × Result BusFailure WireNotify
  unfolding connect wire_notify
  notify attempt setup host euid default_icon call n =
      send_on default_icon call (connect attempt setup host euid n)
