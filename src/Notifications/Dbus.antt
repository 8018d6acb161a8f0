-- ===== src/Notifications/Dbus.antt =====
-- notifications/desktop.py: `DbusNotifier`. A bus is a number; what the calls of the D-Bus library come
-- to, and the owners of names that it has resolved, are arguments. A callback is a value of any type.
pub mod Genuine
pub mod Closed
pub mod Connecting
pub mod Factory
pub mod Wire
pub mod Verb
use terok_clearance.Common.{
  ℕ, String, Bool, true, false, not, ◌||◌, Option, none, some, List, [], ◌∷◌, Dict, string_eq,
  nat_eq, ◌==◌, get, put, remove, truthy, or_else, if◌then◌else◌, Result, ok, raise, ◌>>=◌, PyError,
}
use terok_clearance.Common.Int.{ℤ, pos, negsuc}
use terok_clearance.Client.Popups.{Hints}
use terok_clearance.Hub.Payload.{Json, int_of, str_of}
use terok_clearance.Notifications.Desktop.{pango_escape}

-- An exception of the D-Bus library or the system: an `OSError`, a `DBusFastError` or a `ValueError`,
-- or any other.
pub data BusFailure : Type 0 where
  unavailable unforeseen : BusFailure

-- `BUS_NAME`
abbrev pub bus_name : String
bus_name = "org.freedesktop.Notifications"

-- `OBJECT_PATH`
abbrev pub object_path : String
object_path = "/org/freedesktop/Notifications"

-- `INTERFACE_NAME`
abbrev pub interface_name : String
interface_name = "org.freedesktop.Notifications"

pub data MessageType : Type 0 where
  method_call method_return error_reply signal : MessageType

pub record Message : Type 0 where
  pub message_type : MessageType
  pub interface : String
  pub path : String
  pub member : String
  pub sender : String
  pub body : List Json

-- `_conn` is the bus of a connection. The buses that were disconnected are kept, the newest first.
pub record DbusNotifier (C : Type 0) : Type 0 where
  pub app_name : String
  pub conn : Option ℕ
  pub callbacks : Dict ℕ C
  pub dropped : List ℕ

abbrev pub is_signal : MessageType → Bool
is_signal signal = true
is_signal method_call = false
is_signal method_return = false
is_signal error_reply = false

abbrev pub owner_of : Dict String String → String
owner_of owners = elim (get bus_name owners) [ none ↦ "" | some owner ↦ owner ]

-- `_sender_is_authentic`, of a bus with these `_name_owners`
unfoldable pub sender_is_authentic : Dict String String → Message → Option ℕ → Bool
sender_is_authentic owners msg none = false
sender_is_authentic owners msg (some bus) =
    if truthy (owner_of owners) then msg.sender == owner_of owners else false

-- The state after a signal, and the callback that is called with a key.
abbrev pub Dispatched : Type 0 → Type 0
Dispatched C = DbusNotifier C × Option (C × String)

module _ {C : Type 0} where
  -- `__init__`
  abbrev pub new_dbus_notifier : String → DbusNotifier C
  new_dbus_notifier app_name = record {
    app_name = app_name;
    conn = none;
    callbacks = [];
    dropped = [];
  }

  abbrev pub call_with : String → Option C → Option (C × String)
  call_with key none = none
  call_with key (some callback) = some (callback, key)

  -- `_handle_action`
  unfoldable pub handle_action : ℤ → String → DbusNotifier C → Dispatched C
  handle_action (pos nid) key n = (n, call_with key (get nid n.callbacks))
  handle_action (negsuc k) key n = (n, none)

  -- `_handle_closed`
  unfoldable pub handle_closed : ℤ → DbusNotifier C → Dispatched C
  handle_closed (pos nid) n = (record n { callbacks = remove nid n.callbacks }, none)
  handle_closed (negsuc k) n = (n, none)

  -- The body of `ActionInvoked`
  unfoldable pub action_invoked : List Json → DbusNotifier C → Result PyError (Dispatched C)
  unfolding handle_action int_of str_of
  action_invoked (nid ∷ key ∷ []) n = int_of nid >>= λ id. ok (handle_action id (str_of key) n)
  action_invoked [] n = ok (n, none)
  action_invoked (nid ∷ []) n = ok (n, none)
  action_invoked (nid ∷ key ∷ next ∷ rest) n = ok (n, none)

  -- The body of `NotificationClosed`
  unfoldable pub notification_closed : List Json → DbusNotifier C → Result PyError (Dispatched C)
  unfolding handle_closed int_of
  notification_closed (nid ∷ reason ∷ []) n =
      int_of nid >>= λ id. int_of reason >>= λ r. ok (handle_closed id n)
  notification_closed [] n = ok (n, none)
  notification_closed (nid ∷ []) n = ok (n, none)
  notification_closed (nid ∷ reason ∷ next ∷ rest) n = ok (n, none)

  -- `_dispatch_signal`
  unfoldable pub dispatch_signal :
      Dict String String → Message → DbusNotifier C → Result PyError (Dispatched C)
  unfolding sender_is_authentic action_invoked notification_closed
  dispatch_signal owners msg n =
      if not (is_signal msg.message_type)
        || not (msg.interface == interface_name)
        || not (msg.path == object_path)
      then ok (n, none)
      else if not (sender_is_authentic owners msg n.conn)
      then ok (n, none)
      else if msg.member == "ActionInvoked"
      then action_invoked msg.body n
      else if msg.member == "NotificationClosed"
      then notification_closed msg.body n
      else ok (n, none)

  -- `on_action`
  unfoldable pub on_action : ℕ → C → DbusNotifier C → DbusNotifier C
  on_action nid callback n = record n { callbacks = put nid callback n.callbacks }

  -- `close`: the state, and the id that the desktop is told to close.
  unfoldable pub close : ℕ → DbusNotifier C → DbusNotifier C × Option ℕ
  close nid n = (
    record n { callbacks = remove nid n.callbacks },
    elim n.conn [ none ↦ none | some bus ↦ some nid ],
  )

  abbrev pub drop_bus : Option ℕ → DbusNotifier C → DbusNotifier C
  drop_bus none n = n
  drop_bus (some bus) n = record n { conn = none; callbacks = []; dropped = bus ∷ n.dropped }

  -- `disconnect`
  unfoldable pub disconnect : DbusNotifier C → DbusNotifier C
  disconnect n = drop_bus n.conn n

-- `candidate_uids`, from `host_uid()` and `os.geteuid()`: the first, and what is tried after it
abbrev pub other_uids : ℕ → ℕ → List ℕ
other_uids host euid = if host == euid then [] else euid ∷ []

-- The loop over the candidates: the first bus that connects, or else the last exception.
unfoldable pub try_uids : (ℕ → Result BusFailure ℕ) → ℕ → List ℕ → Result BusFailure ℕ
try_uids attempt uid [] = attempt uid
try_uids attempt uid (next ∷ uids) =
    let rest = try_uids attempt next uids in elim (attempt uid) [ ok bus ↦ ok bus | raise e ↦ rest ]

-- The set-up of a bus: the proxy and the handler; and the reply to `AddMatch`, with whether the bus
-- refused the rule, which is only logged.
pub record Setup : Type 0 where
  pub proxy : Result BusFailure (Unit {0})
  pub add_match : Result BusFailure Bool

unfoldable pub set_up : Setup → Result BusFailure (Unit {0})
set_up s = s.proxy >>= λ made. s.add_match >>= λ refused. ok tt

module _ {C : Type 0} where
  abbrev pub subscribe_bus :
      ℕ
      → Result BusFailure (Unit {0})
      → DbusNotifier C
      → DbusNotifier C × Result BusFailure (Unit {0})
  subscribe_bus bus (ok done) n = (record n { conn = some bus }, ok tt)
  subscribe_bus bus (raise e) n = (record n { dropped = bus ∷ n.dropped }, raise e)

  abbrev pub subscribe_to :
      Result BusFailure ℕ
      → (ℕ → Setup)
      → DbusNotifier C
      → DbusNotifier C × Result BusFailure (Unit {0})
  subscribe_to (raise e) setup n = (n, raise e)
  subscribe_to (ok bus) setup n = subscribe_bus bus (set_up (setup bus)) n

  -- `connect`, of one caller at a time, as its lock has it
  unfoldable pub connect :
      (ℕ → Result BusFailure ℕ)
      → (ℕ → Setup)
      → ℕ
      → ℕ
      → DbusNotifier C
      → DbusNotifier C × Result BusFailure (Unit {0})
  unfolding try_uids set_up
  connect attempt setup host euid n =
      let fresh = subscribe_to (try_uids attempt host (other_uids host euid)) setup n in
      elim n.conn [ some bus ↦ (n, ok tt) | none ↦ fresh ]
