-- ===== src/Verdict/Client.antt =====
-- verdict/client.py: `VerdictClient`. What the socket does is an argument: the outcome of a
-- connection attempt, and of a call on the connection.
pub mod Connection
pub mod Retry
pub mod Overlap
use terok_clearance.Common.{
  ℕ, String, Bool, true, false, Option, none, some, List, [], ◌∷◌, Result, ok, raise, ◌>>=◌, concat,
}

-- A transport and a proxy, each with the number of the connection that it belongs to; the
-- transports that were closed, the newest first.
pub record VerdictClient : Type 0 where
  pub transport : Option ℕ
  pub proxy : Option ℕ
  pub closed : List ℕ

-- What can end a call early: an `OSError`, which the resets and broken pipes are, with its text;
-- or any other exception.
pub data CallError : Type 0 where
  os_error : String → CallError
  other_error : CallError

-- The helper's reply; `stderr` may be left out.
pub record HelperReply : Type 0 where
  pub ok : Bool
  pub stderr : Option String

-- What one attempt meets: a new connection's number, if one is opened, and what `Apply` gives for
-- a container, a target and an action.
pub record Attempt : Type 0 where
  pub connect : Result CallError ℕ
  pub call : String → String → String → Result CallError HelperReply

abbrev pub adopt : Result CallError ℕ → VerdictClient → VerdictClient × Result CallError (Unit {0})
adopt (raise e) client = (client, raise e)
adopt (ok n) client = (record client { transport = some n; proxy = some n }, ok tt)

abbrev pub ensure :
    Option ℕ → Result CallError ℕ → VerdictClient → VerdictClient × Result CallError (Unit {0})
ensure (some n) connect client = (client, ok tt)
ensure none connect client = adopt connect client

-- `_ensure_connected`
unfoldable pub ensure_connected :
    Result CallError ℕ → VerdictClient → VerdictClient × Result CallError (Unit {0})
ensure_connected connect client = ensure client.proxy connect client

abbrev pub close : Option ℕ → List ℕ → List ℕ
close none closed = closed
close (some n) closed = n ∷ closed

-- `_disconnect`
unfoldable pub disconnect : VerdictClient → VerdictClient
disconnect client = record {
  transport = none;
  proxy = none;
  closed = close client.transport client.closed;
}

-- `str(reply.get("stderr", ""))`
abbrev pub stderr_of : HelperReply → String
stderr_of reply = elim reply.stderr [ none ↦ "" | some s ↦ s ]

-- The test of the proxy, and the call: whether it succeeded, and its text.
abbrev pub call_proxy : Option ℕ → Result CallError HelperReply → Result CallError (Bool × String)
call_proxy none reply = ok (false, "verdict helper unreachable: proxy not bound")
call_proxy (some n) reply = reply >>= λ r. ok (r.ok, stderr_of r)

abbrev pub call_after :
    Result CallError HelperReply
    → VerdictClient × Result CallError (Unit {0})
    → VerdictClient × Result CallError (Bool × String)
call_after reply (client, raise e) = (client, raise e)
call_after reply (client, ok connected) = (client, call_proxy client.proxy reply)

-- The body of the `try`.
unfoldable pub try_apply :
    Attempt
    → String
    → String
    → String
    → VerdictClient
    → VerdictClient × Result CallError (Bool × String)
unfolding ensure_connected
try_apply attempt container dest action client =
    call_after (attempt.call container dest action) (ensure_connected attempt.connect client)

-- The second round of the loop: a second failure is the answer.
unfoldable pub second_round :
    VerdictClient × Result CallError (Bool × String)
    → VerdictClient × Result CallError (Bool × String)
unfolding disconnect
second_round (client, ok answer) = (client, ok answer)
second_round (client, raise (os_error e)) =
    (disconnect client, ok (false, concat "verdict helper unreachable: " e))
second_round (client, raise other_error) = (client, raise other_error)

-- The first round, with what the second would do.
unfoldable pub first_round :
    (VerdictClient → VerdictClient × Result CallError (Bool × String))
    → VerdictClient × Result CallError (Bool × String)
    → VerdictClient × Result CallError (Bool × String)
unfolding disconnect
first_round retry (client, ok answer) = (client, ok answer)
first_round retry (client, raise (os_error e)) = retry (disconnect client)
first_round retry (client, raise other_error) = (client, raise other_error)

-- `apply`, with what its two attempts meet.
unfoldable pub apply :
    Attempt
    → Attempt
    → String
    → String
    → String
    → VerdictClient
    → VerdictClient × Result CallError (Bool × String)
unfolding try_apply first_round second_round
apply first second container dest action client =
    first_round (λ c. second_round (try_apply second container dest action c))
      (try_apply first container dest action client)

-- `stop`
unfoldable pub stop : VerdictClient → VerdictClient
unfolding disconnect
stop client = disconnect client
