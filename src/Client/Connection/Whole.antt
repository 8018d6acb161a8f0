-- ===== src/Client/Connection/Whole.antt =====
-- client/client.py: which of its connections a client holds after `_connect` and `stop`.
use terok_clearance.Common.{
  ℕ, true, false, none, some, ◌∷◌, ◌≡◌, refl, ◌⊎◌, inl, inr, Result, ok, raise,
}
use terok_clearance.Client.Connection.{
  Failure, ClearanceClient, closing, close_transports, connect, stop,
}

-- No transport and no proxy is held.
pub record IsClosed (client : ClearanceClient) : Type 0 where
  pub sub_transport : client.sub_transport ≡ none
  pub rpc_transport : client.rpc_transport ≡ none
  pub sub_proxy : client.sub_proxy ≡ none
  pub rpc_proxy : client.rpc_proxy ≡ none

-- Both connections are open, each with its proxy.
pub record IsOpen (n m : ℕ) (client : ClearanceClient) : Type 0 where
  pub sub_transport : client.sub_transport ≡ some n
  pub rpc_transport : client.rpc_transport ≡ some m
  pub sub_proxy : client.sub_proxy ≡ some n
  pub rpc_proxy : client.rpc_proxy ≡ some m

abbrev pub IsWhole : ClearanceClient → Type 0
IsWhole client = IsClosed client ⊎ ((n : ℕ) × (m : ℕ) × IsOpen n m client)

pub close-IsClosed : (client : ClearanceClient) → IsClosed (close_transports client)
unfolding close_transports
close-IsClosed client = record {
  sub_transport = refl;
  rpc_transport = refl;
  sub_proxy = refl;
  rpc_proxy = refl;
}

-- However the two attempts of a connect come out, the client is left with both connections open or with
-- none, never with half of one.
pub connect-IsWhole :
    (first second : Result Failure ℕ) (client : ClearanceClient)
    → IsWhole (connect first second client).0
unfolding connect
connect-IsWhole (raise e) second client = inl (close-IsClosed client)
connect-IsWhole (ok n) (raise e) client =
    inl (close-IsClosed (record client { sub_transport = some n }))
connect-IsWhole (ok n) (ok m) client = inr (
  n,
  m,
  record { sub_transport = refl; rpc_transport = refl; sub_proxy = refl; rpc_proxy = refl },
)

-- Where the first connection of a closed client opens and the second does not, the first is closed
-- before the exception goes on.
pub connect_rolled_back :
    (n : ℕ) (e : Failure) (client : ClearanceClient)
    → IsClosed client
    → (connect (ok n) (raise e) client).0 ≡ record client { closed = n ∷ client.closed }
unfolding connect close_transports
connect_rolled_back n e client h = rw (h.sub_transport, h.rpc_transport, h.sub_proxy, h.rpc_proxy)

-- After a stop the client is closed, its transports are among the closed ones, and its stream does not run.
pub record IsHungUp (before after : ClearanceClient) : Type 0 where
  pub closed : IsClosed after
  pub transports :
      after.closed ≡ closing before.rpc_transport (closing before.sub_transport before.closed)
  pub stopping : after.stopping ≡ true
  pub stream_task : after.stream_task ≡ false

pub stop-IsHungUp : (client : ClearanceClient) → IsHungUp client (stop client)
unfolding stop close_transports
stop-IsHungUp client = record {
  closed = close-IsClosed (record client { stopping = true; stream_task = false });
  transports = refl;
  stopping = refl;
  stream_task = refl;
}
