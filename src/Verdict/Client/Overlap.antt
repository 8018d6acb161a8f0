-- ===== src/Verdict/Client/Overlap.antt =====
-- verdict/client.py: calls of one `VerdictClient` that overlap. Each is cut at its awaits: of the lock,
-- of the connection and of the reply. Taking the lock is a step of its own, so that the waiters get
-- it in any order. A call has a number; its arguments, which only the helper reads, are left out.
pub mod Moves
pub mod Owned
pub mod Progress
use terok_clearance.Common.{
  ℕ, String, Bool, true, false, Option, none, some, List, [], ◌∷◌, Dict, nat_eq, ◌==◌, get, put,
  if◌then◌else◌, concat, Result, ok, raise,
}
use terok_clearance.Verdict.Client.{
  VerdictClient, CallError, os_error, other_error, HelperReply, stderr_of, close, disconnect,
}

-- Where a call is. The Boolean is whether it is the second attempt; `calling` has the connection.
pub data Place : Type 0 where
  waiting connecting : Bool → Place
  calling : Bool → ℕ → Place
  answered : Bool × String → Place
  crashed : Place

-- The client, the call that holds `_connect_lock`, and the calls. For the proofs, `opened` holds the
-- connections that were made, the newest first.
pub record Overlap : Type 0 where
  pub client : VerdictClient
  pub lock : Option ℕ
  pub calls : Dict ℕ Place
  pub opened : List ℕ

abbrev pub place : ℕ → Place → Overlap → Overlap
place i p o = record o { calls = put i p o.calls }

-- The head of an attempt, up to the lock or to the call of the proxy.
abbrev pub begin_attempt : ℕ → Bool → Option ℕ → Overlap → Overlap
begin_attempt i second (some n) o = place i (calling second n) o
begin_attempt i second none o = place i (waiting second) o

-- The `except`, and the second attempt after a first.
unfoldable pub fail : ℕ → Bool → CallError → Overlap → Overlap
unfolding disconnect
fail i second other_error o = place i crashed o
fail i true (os_error e) o =
    place i (answered (false, concat "verdict helper unreachable: " e))
      (record o { client = disconnect o.client })
fail i false (os_error e) o =
    begin_attempt i true (disconnect o.client).proxy (record o { client = disconnect o.client })

-- With the lock: the second test of the proxy.
abbrev pub locked : ℕ → Bool → Option ℕ → Overlap → Overlap
locked i second (some n) o = place i (calling second n) o
locked i second none o = place i (connecting second) (record o { lock = some i })

-- A waiting call takes the lock, if nobody has it.
abbrev pub take_lock : ℕ → Bool → Option ℕ → Overlap → Overlap
take_lock i second none o = locked i second o.client.proxy o
take_lock i second (some holder) o = o

-- The connection attempt of the call that holds the lock, which it then releases.
unfoldable pub on_connected : ℕ → Bool → Result CallError ℕ → Overlap → Overlap
unfolding fail
on_connected i second (raise e) o = fail i second e (record o { lock = none })
on_connected i second (ok n) o = place i (calling second n) (record o {
  client = record o.client { transport = some n; proxy = some n };
  lock = none;
  opened = n ∷ o.opened;
})

unfoldable pub on_replied : ℕ → Bool → Result CallError HelperReply → Overlap → Overlap
unfolding fail
on_replied i second (raise e) o = fail i second e o
on_replied i second (ok r) o = place i (answered (r.ok, stderr_of r)) o

-- A call begins, takes the lock, or is woken by its connection or its reply; it is cancelled; or
-- the client is stopped.
pub data Action : Type 0 where
  begin wake cancel : ℕ → Action
  connect : ℕ → Result CallError ℕ → Action
  reply : ℕ → Result CallError HelperReply → Action
  stop : Action

abbrev pub begun : ℕ → Option Place → Overlap → Overlap
begun i none o = begin_attempt i false o.client.proxy o
begun i (some p) o = o

abbrev pub woken : ℕ → Option Place → Overlap → Overlap
woken i (some (waiting second)) o = take_lock i second o.lock o
woken i _ o = o

abbrev pub on_connect : ℕ → Result CallError ℕ → Option Place → Overlap → Overlap
on_connect i outcome (some (connecting second)) o = on_connected i second outcome o
on_connect i outcome _ o = o

abbrev pub on_reply : ℕ → Result CallError HelperReply → Option Place → Overlap → Overlap
on_reply i outcome (some (calling second n)) o = on_replied i second outcome o
on_reply i outcome _ o = o

-- A cancelled call lets go of the lock, and nothing catches the cancellation.
abbrev pub on_cancel : ℕ → Option Place → Overlap → Overlap
on_cancel i (some (waiting second)) o = place i crashed o
on_cancel i (some (connecting second)) o = place i crashed (record o { lock = none })
on_cancel i (some (calling second n)) o = place i crashed o
on_cancel i _ o = o

unfoldable pub step : Action → Overlap → Overlap
unfolding on_connected on_replied disconnect
step (begin i) o = begun i (get i o.calls) o
step (wake i) o = woken i (get i o.calls) o
step (cancel i) o = on_cancel i (get i o.calls) o
step (connect i outcome) o = on_connect i outcome (get i o.calls) o
step (reply i outcome) o = on_reply i outcome (get i o.calls) o
step stop o = record o { client = disconnect o.client }

unfoldable pub run : List Action → Overlap → Overlap
unfolding step
run [] o = o
run (action ∷ actions) o = run actions (step action o)

abbrev pub no_connection : Overlap
no_connection = record {
  client = record { transport = none; proxy = none; closed = [] };
  lock = none;
  calls = [];
  opened = [];
}
