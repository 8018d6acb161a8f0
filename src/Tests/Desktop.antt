-- ===== src/Tests/Desktop.antt =====
-- `DbusNotifier` on concrete messages and texts.
use terok_clearance.Common.{
  ℕ, zero, suc, String, true, false, none, some, List, [], ◌∷◌, Dict, ◌≡◌, refl, arith, string_eq,
  nat_eq, get, Result, ok, raise,
}
use terok_clearance.Common.Int.{pos}
use terok_clearance.Hub.Payload.{int, text}
use terok_clearance.Notifications.Desktop.{pango_escape, icon_theme_search_dirs, default_app_icon}
use terok_clearance.Notifications.Desktop.Markup.{has_no_tag, render, render-pango_escape}
use terok_clearance.Notifications.Dbus.{
  BusFailure, unavailable, bus_name, object_path, interface_name, signal, Message, DbusNotifier,
  dispatch_signal, handle_action, Setup, try_uids, connect, close,
}
use terok_clearance.Notifications.Dbus.Genuine.{IsGenuine, dispatch_signal-IsGenuine}
use terok_clearance.Notifications.Dbus.Closed.{
  Use, signalled, binding, closing, after_all, close-unanswered,
}
use terok_clearance.Notifications.Dbus.Wire.{WireNotify, notify}
use terok_clearance.Notifications.Dbus.Verb.{NotifyArgs, handle_notify}

escaped : pango_escape "<b>&amp;" ≡ "&lt;b&gt;&amp;amp;"
unfolding pango_escape
escaped = refl

render-pango_escape_example :
    (has_no_tag (pango_escape "<b>&amp;") ≡ true) × (render (pango_escape "<b>&amp;") ≡ "<b>&amp;")
render-pango_escape_example = render-pango_escape "<b>&amp;"

search_dirs :
    icon_theme_search_dirs none "/home/a/.local/share" (some "/opt::/usr")
    ≡ "/home/a/.local/share" ∷ "/opt" ∷ "/usr" ∷ []
unfolding icon_theme_search_dirs
search_dirs = refl

-- A found icon is kept, whatever becomes of its file.
icon_kept :
    (default_app_icon []
      (λ dir. false)
      none
      (default_app_icon ("/opt" ∷ []) (λ dir. true) none none).0).1
    ≡ "terok-symbolic"
unfolding default_app_icon
icon_kept = refl

-- A callback is a number here.
abbrev bound : DbusNotifier ℕ
bound = record { app_name = "terok"; conn = some 1; callbacks = (7, 70) ∷ []; dropped = [] }

abbrev owners : Dict String String
owners = (bus_name, ":1.5") ∷ []

abbrev click : Message
click = record {
  message_type = signal;
  interface = interface_name;
  path = object_path;
  member = "ActionInvoked";
  sender = ":1.5";
  body = int (pos 7) ∷ text "allow" ∷ [];
}

clicked : dispatch_signal owners click bound ≡ ok (bound, some (70, "allow"))
unfolding dispatch_signal get
clicked = refl

-- The same message of another peer of the bus
spoofed : dispatch_signal owners (record click { sender = ":1.9" }) bound ≡ ok (bound, none)
unfolding dispatch_signal get
spoofed = refl

dispatch_signal-IsGenuine_example : IsGenuine owners click bound
dispatch_signal-IsGenuine_example =
    dispatch_signal-IsGenuine owners click bound (λ e. ground (arith, clicked, e))

abbrev later : List (Use ℕ)
later = signalled owners click ∷ binding 8 80 ∷ closing 8 ∷ []

close-unanswered_example :
    (handle_action (pos 7) "allow" (after_all later (close 7 bound).0)).1 ≡ none
close-unanswered_example = close-unanswered 7 "allow" later bound (refl, (refl, (refl, tt)))

-- The host's user id is refused, the own one connects, and the set-up of the bus fails.
abbrev attempt : ℕ → Result BusFailure ℕ
attempt uid = elim uid [ zero ↦ ok 3 | suc n ↦ raise unavailable ]

abbrev setup : ℕ → Setup
setup bus = record { proxy = ok tt; add_match = raise unavailable }

-- A desktop that answers every call with the same id.
abbrev answer : WireNotify → Result BusFailure ℕ
answer call = ok 7

abbrev args : NotifyArgs
args = record { summary = "<done>"; body = "all of it"; timeout = pos 5000 }

abbrev working : ℕ → Setup
working bus = record { proxy = ok tt; add_match = ok false }

printed : (handle_notify ℕ attempt working 1000 0 "icon" answer args).1 ≡ ok 7
unfolding handle_notify connect try_uids notify
printed = refl
