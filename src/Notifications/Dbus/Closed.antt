-- ===== src/Notifications/Dbus/Closed.antt =====
-- notifications/desktop.py: the callbacks of notifications over any use of the notifier.
use terok_clearance.Common.{
  ℕ, String, Bool, true, false, not, ◌||◌, Option, none, some, List, [], ◌∷◌, Dict, string_eq,
  nat_eq, ◌==◌, get, if◌then◌else◌, Result, ok, raise, ◌>>=◌, PyError, ◌≡◌, refl, ap, ◌∙◌, arith,
  All, get-put, get-remove, get-remove_self,
}
use terok_clearance.Common.Int.{ℤ, pos, negsuc}
use terok_clearance.Hub.Payload.{Json, int_of, str_of}
use terok_clearance.Notifications.Dbus.{
  BusFailure, Message, DbusNotifier, Dispatched, call_with, handle_action, handle_closed,
  action_invoked, notification_closed, dispatch_signal, on_action, close, disconnect, drop_bus,
  connect, Setup, subscribe_bus, subscribe_to, set_up, is_signal, interface_name, object_path,
  sender_is_authentic, try_uids, other_uids,
}

-- A use of a notifier.
pub data Use (C : Type 0) : Type 0 where
  opening : (ℕ → Result BusFailure ℕ) → (ℕ → Setup) → ℕ → ℕ → Use C
  signalled : Dict String String → Message → Use C
  binding : ℕ → C → Use C
  closing : ℕ → Use C
  ending : Use C

module _ {C : Type 0} where
  abbrev pub settled : DbusNotifier C → Result PyError (Dispatched C) → DbusNotifier C
  settled n (ok d) = d.0
  settled n (raise e) = n

  -- The state after a use: a signal's exception goes to the D-Bus library and changes nothing.
  unfoldable pub after : Use C → DbusNotifier C → DbusNotifier C
  unfolding connect dispatch_signal on_action close disconnect
  after (opening attempt setup host euid) n = (connect attempt setup host euid n).0
  after (signalled owners msg) n = settled n (dispatch_signal owners msg n)
  after (binding nid callback) n = on_action nid callback n
  after (closing nid) n = (close nid n).0
  after ending n = disconnect n

  unfoldable pub after_all : List (Use C) → DbusNotifier C → DbusNotifier C
  unfolding after
  after_all [] n = n
  after_all (u ∷ us) n = after_all us (after u n)

  -- The use binds no callback to the notification.
  abbrev pub leaves : ℕ → Use C → Bool
  leaves nid (opening attempt setup host euid) = true
  leaves nid (signalled owners msg) = true
  leaves nid (binding other callback) = not (other == nid)
  leaves nid (closing other) = true
  leaves nid ending = true

  abbrev Absent : ℕ → DbusNotifier C → Type 0
  Absent nid n = get nid n.callbacks ≡ none

  -- A signal calls and loses callbacks, and binds none.
  abbrev Harmless : ℕ → DbusNotifier C → Result PyError (Dispatched C) → Type 0
  Harmless nid n r = Absent nid n → Absent nid (settled n r)

  handle_closed-Harmless :
      (nid : ℕ) (z : ℤ) (n : DbusNotifier C) → Harmless nid n (ok (handle_closed z n))
  unfolding handle_closed
  handle_closed-Harmless nid (pos k) n h = ground (arith, h, get-remove k nid n.callbacks)
  handle_closed-Harmless nid (negsuc k) n h = h

  handle_action-Harmless :
      (nid : ℕ) (z : ℤ) (key : String) (n : DbusNotifier C)
      → Harmless nid n (ok (handle_action z key n))
  unfolding handle_action
  handle_action-Harmless nid (pos k) key n h = h
  handle_action-Harmless nid (negsuc k) key n h = h

  action_invoked-Harmless :
      (nid : ℕ) (body : List Json) (n : DbusNotifier C) → Harmless nid n (action_invoked body n)
  unfolding action_invoked
  action_invoked-Harmless nid [] n h = h
  action_invoked-Harmless nid (a ∷ []) n h = h
  action_invoked-Harmless nid (a ∷ b ∷ []) n h = go (int_of a)
    where
      go :
          (r : Result PyError ℤ)
          → Absent nid (settled n (r >>= λ id. ok (handle_action id (str_of b) n)))
      go (ok z) = handle_action-Harmless nid z (str_of b) n h
      go (raise e) = h
  action_invoked-Harmless nid (a ∷ b ∷ c ∷ rest) n h = h

  notification_closed-Harmless :
      (nid : ℕ) (body : List Json) (n : DbusNotifier C)
      → Harmless nid n (notification_closed body n)
  unfolding notification_closed
  notification_closed-Harmless nid [] n h = h
  notification_closed-Harmless nid (a ∷ []) n h = h
  notification_closed-Harmless nid (a ∷ b ∷ []) n h = go (int_of a) (int_of b)
    where
      go :
          (r s : Result PyError ℤ)
          → Absent nid (settled n (r >>= λ id. s >>= λ reason. ok (handle_closed id n)))
      go (ok z) (ok w) = handle_closed-Harmless nid z n h
      go (ok z) (raise e) = h
      go (raise e) s = h
  notification_closed-Harmless nid (a ∷ b ∷ c ∷ rest) n h = h

  if-Harmless :
      (b : Bool) (nid : ℕ) (n : DbusNotifier C) (x y : Result PyError (Dispatched C))
      → Harmless nid n x
      → Harmless nid n y
      → Harmless nid n (if b then x else y)
  if-Harmless true nid n x y h k = h
  if-Harmless false nid n x y h k = k

  dispatch_signal-Harmless :
      (nid : ℕ) (owners : Dict String String) (msg : Message) (n : DbusNotifier C)
      → Harmless nid n (dispatch_signal owners msg n)
  unfolding dispatch_signal
  dispatch_signal-Harmless nid owners msg n =
      if-Harmless
        (not (is_signal msg.message_type)
          || not (msg.interface == interface_name)
          || not (msg.path == object_path))
        nid n (ok (n, none)) trusted (λ h. h)
        (if-Harmless (not (sender_is_authentic owners msg n.conn)) nid n (ok (n, none)) first
          (λ h. h)
          (if-Harmless (msg.member == "ActionInvoked") nid n (action_invoked msg.body n) second
            (action_invoked-Harmless nid msg.body n)
            (if-Harmless (msg.member == "NotificationClosed") nid n (notification_closed msg.body n)
              (ok (n, none)) (notification_closed-Harmless nid msg.body n) (λ h. h))))
    where
      second : Result PyError (Dispatched C)
      second =
          if msg.member == "NotificationClosed"
          then notification_closed msg.body n
          else ok (n, none)

      first : Result PyError (Dispatched C)
      first = if msg.member == "ActionInvoked" then action_invoked msg.body n else second

      trusted : Result PyError (Dispatched C)
      trusted = if not (sender_is_authentic owners msg n.conn) then ok (n, none) else first

  connect-callbacks :
      (attempt : ℕ → Result BusFailure ℕ) (setup : ℕ → Setup) (host euid : ℕ) (n : DbusNotifier C)
      → (connect attempt setup host euid n).0.callbacks ≡ n.callbacks
  unfolding connect
  connect-callbacks attempt setup host euid n = go n.conn
    where
      subscribed :
          (bus : ℕ) (r : Result BusFailure (Unit {0}))
          → (subscribe_bus bus r n).0.callbacks ≡ n.callbacks
      subscribed bus (ok done) = refl
      subscribed bus (raise e) = refl

      fresh : Result BusFailure ℕ → DbusNotifier C × Result BusFailure (Unit {0})
      fresh r = subscribe_to r setup n

      made : (r : Result BusFailure ℕ) → (fresh r).0.callbacks ≡ n.callbacks
      made (ok bus) = subscribed bus (set_up (setup bus))
      made (raise e) = refl

      outcome : Option ℕ → DbusNotifier C × Result BusFailure (Unit {0})
      outcome o = elim o [
        | some bus ↦ (n, ok tt)
        | none ↦ fresh (try_uids attempt host (other_uids host euid))
      ]

      go : (o : Option ℕ) → (outcome o).0.callbacks ≡ n.callbacks
      go none = made (try_uids attempt host (other_uids host euid))
      go (some bus) = refl

  after-Absent :
      (nid : ℕ) (u : Use C) (n : DbusNotifier C)
      → leaves nid u ≡ true
      → Absent nid n
      → Absent nid (after u n)
  unfolding after
  after-Absent nid (opening attempt setup host euid) n l h =
      ap (get nid) (connect-callbacks attempt setup host euid n) ∙ h
  after-Absent nid (signalled owners msg) n l h = dispatch_signal-Harmless nid owners msg n h
  after-Absent nid (binding other callback) n l h =
      unfold on_action in ground (arith, l, h, get-put other nid callback n.callbacks)
  after-Absent nid (closing other) n l h =
      unfold close in ground (arith, h, get-remove other nid n.callbacks)
  after-Absent nid ending n l h = unfold disconnect in go n.conn
    where
      go : (o : Option ℕ) → Absent nid (drop_bus o n)
      go none = h
      go (some bus) = unfold get in refl

  after_all-Absent :
      (nid : ℕ) (us : List (Use C)) (n : DbusNotifier C)
      → All (λ u. leaves nid u ≡ true) us
      → Absent nid n
      → Absent nid (after_all us n)
  unfolding after_all
  after_all-Absent nid [] n l h = h
  after_all-Absent nid (u ∷ us) n l h =
      after_all-Absent nid us (after u n) l.1 (after-Absent nid u n l.0 h)

  -- Once a notification is closed, no press of a button is answered for it, whatever signals, closes,
  -- connects and disconnects follow, until a callback is bound to its id again.
  pub close-unanswered :
      (nid : ℕ) (key : String) (us : List (Use C)) (n : DbusNotifier C)
      → All (λ u. leaves nid u ≡ true) us
      → (handle_action (pos nid) key (after_all us (close nid n).0)).1 ≡ none
  unfolding handle_action
  close-unanswered nid key us n l =
      ap (call_with key) (
        after_all-Absent nid us (close nid n).0 l (unfold close in get-remove_self nid n.callbacks))
