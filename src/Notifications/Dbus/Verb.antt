-- ===== src/Notifications/Dbus/Verb.antt =====
-- cli/verbs/notify.py: `_handle_notify`, with the notifier that notifications/factory.py creates.
use terok_clearance.Common.{ℕ, String, none, [], Result, ok, raise, ◌>>=◌, ◌≡◌}
use terok_clearance.Common.Int.{ℤ}
use terok_clearance.Notifications.Dbus.{
  BusFailure, unavailable, unforeseen, DbusNotifier, new_dbus_notifier, Setup, set_up, connect,
  disconnect,
}
use terok_clearance.Notifications.Dbus.Factory.{Notifier, null, dbus, null_id, created}
use terok_clearance.Notifications.Dbus.Wire.{WireNotify, NotifyCall, wire_notify, notify}
use terok_clearance.Notifications.Dbus.Connecting.{bus_of}

-- What the command line gives the verb.
pub record NotifyArgs : Type 0 where
  pub summary : String
  pub body : String
  pub timeout : ℤ

abbrev pub call_of : NotifyArgs → NotifyCall
call_of args = record {
  summary = args.summary;
  body = args.body;
  actions = [];
  timeout_ms = args.timeout;
  hints = none;
  replaces_id = 0;
  app_icon = "";
}

module _ (C : Type 0) (attempt : ℕ → Result BusFailure ℕ) (setup : ℕ → Setup) (host euid : ℕ)
    (default_icon : String) (answer : WireNotify → Result BusFailure ℕ) (args : NotifyArgs) where
  abbrev pub hang_up :
      DbusNotifier C × Result BusFailure WireNotify → DbusNotifier C × Result BusFailure ℕ
  hang_up (n, sent) = (disconnect n, sent >>= answer)

  -- The `try` of the verb on the notifier that was created, next to the `DbusNotifier` as it was left.
  abbrev pub send_and_leave :
      DbusNotifier C → Result BusFailure (Notifier C) → DbusNotifier C × Result BusFailure ℕ
  send_and_leave left (raise e) = (left, raise e)
  send_and_leave left (ok null) = (left, ok null_id)
  send_and_leave left (ok (dbus n)) =
      hang_up (notify attempt setup host euid default_icon (call_of args) n)

  -- `_handle_notify`, with the desktop's answer to a call: the `DbusNotifier` that was made, and the id
  -- that is printed or the exception.
  unfoldable pub handle_notify : DbusNotifier C × Result BusFailure ℕ
  unfolding connect disconnect notify
  handle_notify =
      let r = connect attempt setup host euid (new_dbus_notifier "terok") in
      send_and_leave r.0 (created r)

  -- What the verb comes to when a connection does.
  abbrev pub outcome : Result BusFailure (Unit {0}) → Result BusFailure ℕ
  outcome (ok done) = answer (wire_notify "terok" default_icon (call_of args))
  outcome (raise unavailable) = ok null_id
  outcome (raise unforeseen) = raise unforeseen

  abbrev Ended : Result BusFailure ℕ → DbusNotifier C × Result BusFailure ℕ → Type 0
  Ended o r =
      (r.0.conn ≡ none)
      × (r.0.dropped ≡ bus_of o)
      × (r.1 ≡ outcome (o >>= λ bus. set_up (setup bus)))

  abbrev run_on :
      DbusNotifier C × Result BusFailure (Unit {0}) → DbusNotifier C × Result BusFailure ℕ
  run_on r = send_and_leave r.0 (created r)
