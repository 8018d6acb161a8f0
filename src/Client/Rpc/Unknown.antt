-- ===== src/Client/Rpc/Unknown.antt =====
-- client/client.py: what the answers of `set_mute` and `verdict` say of the hub's reply.
use terok_clearance.Common.{
  ℕ, Bool, true, false, Option, none, some, Result, ok, raise, ◌≡◌, refl, arith,
}
use terok_clearance.Client.Connection.{Failure, error_reply, disconnected, other, ClearanceClient}
use terok_clearance.Client.Rpc.{verdict_reply, verdict, landed, set_mute}

landed-some :
    {A : Type 0} (reply : Result Failure A) {a : A} → landed reply ≡ ok (some a) → reply ≡ ok a
unfolding landed
landed-some (ok b) h = ground arith
landed-some (raise error_reply) h = ground arith
landed-some (raise disconnected) h = ground arith
landed-some (raise other) h = ground arith

-- A mute state that `set_mute` answers is the one that the hub replied over a live connection: it is
-- never a guess.
pub set_mute_known :
    (reply : Result Failure Bool) (client : ClearanceClient) {m : Bool}
    → set_mute reply client ≡ ok (some m)
    → (reply ≡ ok m) × ((n : ℕ) × (client.rpc_proxy ≡ some n))
unfolding set_mute
set_mute_known reply client {m} h = go client.rpc_proxy refl h
  where
    go :
        (proxy : Option ℕ)
        → client.rpc_proxy ≡ proxy
        → elim proxy [ none ↦ ok none | some n ↦ landed reply ] ≡ ok (some m)
        → (reply ≡ ok m) × ((n : ℕ) × (client.rpc_proxy ≡ some n))
    go none e k = absurd (ground arith)
    go (some n) e k = (landed-some reply k, (n, e))

-- A verdict that is answered as applied was replied so by the hub over a live connection.
pub verdict_known :
    (reply : Result Failure (Option Bool)) (client : ClearanceClient)
    → verdict reply client ≡ ok true
    → (reply ≡ ok (some true)) × ((n : ℕ) × (client.rpc_proxy ≡ some n))
unfolding verdict verdict_reply
verdict_known reply client h = go client.rpc_proxy refl h
  where
    replied : (r : Result Failure (Option Bool)) → verdict_reply r ≡ ok true → r ≡ ok (some true)
    replied (ok none) k = ground arith
    replied (ok (some b)) k = ground arith
    replied (raise error_reply) k = ground arith
    replied (raise disconnected) k = ground arith
    replied (raise other) k = ground arith

    go :
        (proxy : Option ℕ)
        → client.rpc_proxy ≡ proxy
        → elim proxy [ none ↦ ok false | some n ↦ verdict_reply reply ] ≡ ok true
        → (reply ≡ ok (some true)) × ((n : ℕ) × (client.rpc_proxy ≡ some n))
    go none e k = absurd (ground arith)
    go (some n) e k = (replied reply k, (n, e))
