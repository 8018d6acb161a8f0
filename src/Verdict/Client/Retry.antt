-- ===== src/Verdict/Client/Retry.antt =====
-- verdict/client.py: what `apply` answers, by what its attempts meet.
use terok_clearance.Common.{
  ℕ, String, Bool, false, Option, none, some, Result, ok, raise, ◌≡◌, ◌≢◌, refl, concat, arith,
}
use terok_clearance.Verdict.Client.{
  VerdictClient, CallError, os_error, other_error, HelperReply, Attempt, ensure_connected,
  disconnect, close, stderr_of, call_proxy, call_after, ensure, try_apply, first_round,
  second_round, apply,
}

module _ (c d a : String) (client : VerdictClient) (n : ℕ) (live : client.proxy ≡ some n) where
  -- On a live connection, a reply is the answer, and shield is not run again: the second attempt is
  -- not made.
  pub answered_once :
      (first second : Attempt) {reply : HelperReply}
      → first.call c d a ≡ ok reply
      → apply first second c d a client ≡ (client, ok (reply.ok, stderr_of reply))
  unfolding apply try_apply ensure_connected first_round
  answered_once first second replied = rw (live, replied)

  -- Where the live connection breaks under the call and a new one can be opened, the answer is that of
  -- the same call on the new one; the old transport is closed, and the new connection is kept.
  pub reconnected :
      (first second : Attempt) {e : String} {m : ℕ} {reply : HelperReply}
      → first.call c d a ≡ raise (os_error e)
      → second.connect ≡ ok m
      → second.call c d a ≡ ok reply
      → apply first second c d a client ≡ (
        record {
          transport = some m;
          proxy = some m;
          closed = close client.transport client.closed;
        },
        ok (reply.ok, stderr_of reply),
      )
  unfolding apply try_apply ensure_connected first_round second_round
  reconnected first second broken connect replied = rw (live, broken, connect, replied)

  -- Where the live connection breaks under the call and no new one can be opened, the answer is a
  -- failure that carries the second error's text, and the client is left disconnected, its old
  -- transport closed once.
  pub helper_gone :
      (first second : Attempt) {e f : String}
      → first.call c d a ≡ raise (os_error e)
      → second.connect ≡ raise (os_error f)
      → apply first second c d a client ≡ (
        record { transport = none; proxy = none; closed = close client.transport client.closed },
        ok (false, concat "verdict helper unreachable: " f),
      )
  unfolding apply try_apply ensure_connected first_round second_round
  helper_gone first second broken refused = rw (live, broken, refused)

-- The attempt meets no exception but an `OSError`.
pub record IsQuiet (attempt : Attempt) (c d a : String) : Type 0 where
  pub connect : attempt.connect ≢ raise other_error
  pub call : attempt.call c d a ≢ raise other_error

abbrev Quiet : VerdictClient × Result CallError (Bool × String) → Type 0
Quiet (client, r) = r ≢ raise other_error

call_proxy-quiet :
    (proxy : Option ℕ) (reply : Result CallError HelperReply)
    → reply ≢ raise other_error
    → call_proxy proxy reply ≢ raise other_error
call_proxy-quiet none reply h e = ground arith
call_proxy-quiet (some n) (ok r) h e = ground arith
call_proxy-quiet (some n) (raise x) h e = h (ground arith)

try_apply-Quiet :
    (attempt : Attempt) (c d a : String) (client : VerdictClient)
    → IsQuiet attempt c d a
    → Quiet (try_apply attempt c d a client)
unfolding try_apply ensure_connected
try_apply-Quiet attempt c d a client quiet = go client.proxy attempt.connect quiet.connect
  where
    go :
        (proxy : Option ℕ) (connect : Result CallError ℕ)
        → connect ≢ raise other_error
        → Quiet (call_after (attempt.call c d a) (ensure proxy connect client))
    go (some n) connect h = call_proxy-quiet client.proxy (attempt.call c d a) quiet.call
    go none (ok n) h = call_proxy-quiet (some n) (attempt.call c d a) quiet.call
    go none (raise e) h = λ same. h (ground arith)

-- Where two attempts in turn meet no exception but an `OSError`, `apply` raises none: the hub is given an answer.
pub apply_answers :
    (first second : Attempt) (c d a : String) (client : VerdictClient)
    → IsQuiet first c d a
    → IsQuiet second c d a
    → (answer : Bool × String) × ((apply first second c d a client).1 ≡ ok answer)
unfolding apply first_round
apply_answers first second c d a client quiet quiet' =
    go (try_apply first c d a client) (try_apply-Quiet first c d a client quiet)
  where
    answered :
        (r : VerdictClient × Result CallError (Bool × String))
        → Quiet r
        → (answer : Bool × String) × ((second_round r).1 ≡ ok answer)
    answered (x, ok answer) h = unfold second_round in (answer, refl)
    answered (x, raise (os_error e)) h = unfold second_round in (_, refl)
    answered (x, raise other_error) h = absurd (h refl)

    go :
        (r : VerdictClient × Result CallError (Bool × String))
        → Quiet r
        → (answer : Bool × String) × ((first_round
              (λ x. second_round (try_apply second c d a x))
              r).1
            ≡ ok answer)
    go (x, ok answer) h = (answer, refl)
    go (x, raise (os_error e)) h =
        answered (try_apply second c d a (disconnect x))
          (try_apply-Quiet second c d a (disconnect x) quiet')
    go (x, raise other_error) h = absurd (h refl)
