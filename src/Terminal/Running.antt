-- ===== src/Terminal/Running.antt =====
-- cli/terminal_clearance.py: `__init__` and `run`.
use terok_clearance.Common.{String, false, Option, none, some, [], Result, ok, raise}
use terok_clearance.Notifications.{new_notifier, disconnect}
use terok_clearance.Notifications.Hooks.{Hooks, no_hooks}
use terok_clearance.Client.Sockets.{MultiSocketSubscriber, stop_multi}
use terok_clearance.Terminal.{Terminal, on_notify}

module _ {C : Type 0} where
  -- `__init__`: its state, and the hooks of its notifier
  abbrev pub new_terminal : Terminal C
  new_terminal = record { pending = []; notifier = new_notifier; stop = false }

  unfoldable pub terminal_hooks : Hooks (Terminal C)
  unfolding on_notify
  terminal_hooks = record no_hooks { on_notify = some (λ n t. on_notify n t) }

  -- What is done once the stop is asked for.
  abbrev pub wind_down :
      Terminal C × MultiSocketSubscriber → Terminal C × Option MultiSocketSubscriber
  unfolding disconnect stop_multi
  wind_down (t, m) = (record t { notifier = disconnect t.notifier }, some (stop_multi m))

  -- `run`, with what the subscriber's start comes to, and what happens until the stop is asked for. With
  -- no subscriber the program exits.
  unfoldable pub run_terminal :
      Result String MultiSocketSubscriber
      → (Terminal C × MultiSocketSubscriber → Terminal C × MultiSocketSubscriber)
      → Terminal C
      → Terminal C × Option MultiSocketSubscriber
  unfolding wind_down
  run_terminal (raise e) meanwhile t = (t, none)
  run_terminal (ok m) meanwhile t = wind_down (meanwhile (record t { stop = false }, m))
