-- ===== src/Notifications/Dbus/Genuine.antt =====
-- notifications/desktop.py: which signals do anything.
use terok_clearance.Common.{
  ℕ, String, Bool, true, false, ◌&&◌, Option, none, some, Dict, string_eq, nat_eq, ◌==◌, get,
  truthy, if◌then◌else◌, ok, ◌≡◌, ◌≢◌, refl, sym, ap, arith, eq_of_beq, and_true,
}
use terok_clearance.Notifications.Dbus.{
  bus_name, object_path, interface_name, MessageType, method_call, method_return, error_reply,
  signal, Message, DbusNotifier, is_signal, sender_is_authentic, dispatch_signal,
}

-- A signal of the notification service on its path, sent by the owner of its name, to a notifier
-- that is connected.
pub record IsGenuine {C : Type 0} (owners : Dict String String) (msg : Message) (n : DbusNotifier C)
    : Type 0 where
  pub is_signal : msg.message_type ≡ signal
  pub interface : msg.interface ≡ interface_name
  pub path : msg.path ≡ object_path
  pub connected : n.conn ≢ none
  pub sender : get bus_name owners ≡ some msg.sender

signal_of : (t : MessageType) → is_signal t ≡ true → t ≡ signal
signal_of signal h = refl
signal_of method_call h = absurd (ground arith)
signal_of method_return h = absurd (ground arith)
signal_of error_reply h = absurd (ground arith)

sender_is_authentic-connected :
    (owners : Dict String String) (msg : Message) (o : Option ℕ)
    → sender_is_authentic owners msg o ≡ true
    → (o ≢ none) × (get bus_name owners ≡ some msg.sender)
unfolding sender_is_authentic
sender_is_authentic-connected owners msg none h = absurd (ground arith)
sender_is_authentic-connected owners msg (some bus) h = (λ e. cc, go (get bus_name owners) h)
  where
    tested : (b c : Bool) → (if b then c else false) ≡ true → (b && c) ≡ true
    tested true c e = e
    tested false c e = e

    go :
        (o : Option String)
        → (if truthy (elim o [ none ↦ "" | some owner ↦ owner ])
            then msg.sender == elim o [ none ↦ "" | some owner ↦ owner ]
            else false)
          ≡ true
        → o ≡ some msg.sender
    go none e = absurd (ground arith)
    go (some owner) e = ap some (
        sym (
          eq_of_beq msg.sender owner
            (and_true (truthy owner) (msg.sender == owner)
              (tested (truthy owner) (msg.sender == owner) e)).1))

-- A call that comes to anything but nothing at all.
module _ {C : Type 0} (owners : Dict String String) (msg : Message) (n : DbusNotifier C) where
  abbrev pub Acts : Type 0
  Acts = dispatch_signal owners msg n ≢ ok (n, none)

  -- A message makes a notifier do something, be it the call of a callback, the loss of one or an
  -- exception, only if it is a signal of the notification service on its path, the notifier is
  -- connected, and the sender is the owner that the bus has resolved for the service's name. Any
  -- other message of the session bus changes nothing and calls nothing.
  pub dispatch_signal-IsGenuine : Acts → IsGenuine owners msg n
  unfolding dispatch_signal
  dispatch_signal-IsGenuine acts =
      go (is_signal msg.message_type) (msg.interface == interface_name) (msg.path == object_path)
        (sender_is_authentic owners msg n.conn) refl refl refl refl
    where
      go :
          (t i p a : Bool)
          → is_signal msg.message_type ≡ t
          → (msg.interface == interface_name) ≡ i
          → (msg.path == object_path) ≡ p
          → sender_is_authentic owners msg n.conn ≡ a
          → IsGenuine owners msg n
      go true true true true et ei ep ea =
          let sent = sender_is_authentic-connected owners msg n.conn ea in
          record {
            is_signal = signal_of msg.message_type et;
            interface = eq_of_beq msg.interface interface_name ei;
            path = eq_of_beq msg.path object_path ep;
            connected = sent.0;
            sender = sent.1;
          }
      go false i p a et ei ep ea = absurd (acts (rw et refl))
      go true false p a et ei ep ea = absurd (acts (rw (et, ei) refl))
      go true true false a et ei ep ea = absurd (acts (rw (et, ei, ep) refl))
      go true true true false et ei ep ea = absurd (acts (rw (et, ei, ep, ea) refl))
