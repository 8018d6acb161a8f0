-- ===== src/Verdict/Client/Connection.antt =====
-- verdict/client.py: the transport and the proxy of the client.
use terok_clearance.Common.{
  ℕ, String, Bool, Option, none, some, Result, ok, raise, ◌≡◌, refl, nat_eq,
}
use terok_clearance.Verdict.Client.{
  VerdictClient, CallError, os_error, other_error, HelperReply, Attempt, ensure, ensure_connected,
  disconnect, try_apply, call_after, first_round, second_round, apply,
}

-- Transport and proxy are of one connection.
abbrev pub IsPaired : VerdictClient → Type 0
IsPaired client = client.transport ≡ client.proxy

disconnect-IsPaired : (client : VerdictClient) → IsPaired (disconnect client)
unfolding disconnect
disconnect-IsPaired client = refl

ensure-IsPaired :
    (proxy : Option ℕ) (connect : Result CallError ℕ) (client : VerdictClient)
    → IsPaired client
    → IsPaired (ensure proxy connect client).0
ensure-IsPaired (some n) connect client h = h
ensure-IsPaired none (ok n) client h = refl
ensure-IsPaired none (raise e) client h = h

call_after-IsPaired :
    (reply : Result CallError HelperReply) (r : VerdictClient × Result CallError (Unit {0}))
    → IsPaired r.0
    → IsPaired (call_after reply r).0
call_after-IsPaired reply (client, raise e) h = h
call_after-IsPaired reply (client, ok connected) h = h

try-IsPaired :
    (attempt : Attempt) (c d a : String) (client : VerdictClient)
    → IsPaired client
    → IsPaired (try_apply attempt c d a client).0
unfolding try_apply ensure_connected
try-IsPaired attempt c d a client h =
    call_after-IsPaired (attempt.call c d a) _
      (ensure-IsPaired client.proxy attempt.connect client h)

second-IsPaired :
    (r : VerdictClient × Result CallError (Bool × String))
    → IsPaired r.0
    → IsPaired (second_round r).0
unfolding second_round
second-IsPaired (client, ok answer) h = h
second-IsPaired (client, raise (os_error e)) h = disconnect-IsPaired client
second-IsPaired (client, raise other_error) h = h

-- Whatever a call of `apply` meets, a client whose transport and proxy are of one connection stays
-- so.
pub apply-IsPaired :
    (first second : Attempt) (c d a : String) (client : VerdictClient)
    → IsPaired client
    → IsPaired (apply first second c d a client).0
unfolding apply
apply-IsPaired first second c d a client h =
    go (try_apply first c d a client) (try-IsPaired first c d a client h)
  where
    go :
        (r : VerdictClient × Result CallError (Bool × String))
        → IsPaired r.0
        → IsPaired (first_round (λ x. second_round (try_apply second c d a x)) r).0
    go (x, ok answer) p = unfold first_round in p
    go (x, raise (os_error e)) p =
        unfold first_round in
        second-IsPaired (try_apply second c d a (disconnect x))
          (try-IsPaired second c d a (disconnect x) (disconnect-IsPaired x))
    go (x, raise other_error) p = unfold first_round in p
