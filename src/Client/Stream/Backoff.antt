-- ===== src/Client/Stream/Backoff.antt =====
-- client/client.py: the back-off of `_run_stream`.
use Prim.Native.Nat.{min, ◌*◌, ◌^◌}
use terok_clearance.Common.{
  ℕ, suc, ◌+◌, ◌≤◌, Bool, true, false, List, [], ◌∷◌, Result, ok, raise, ◌≡◌, refl, arith, ◌∙◌, ap,
  sym, ◌||◌, ◌⊎◌, inl, inr, length,
}
use terok_clearance.Client.Connection.{Failure, ClearanceClient, close_transports, connect}
use terok_clearance.Client.Connection.Whole.{IsWhole, connect-IsWhole}
use terok_clearance.Client.Stream.{
  max_reconnect_backoff, Round, Stream, next_backoff, connected_backoff, wait, reconnect, take_in,
  run_rounds, opened,
}

-- A positive wait within the cap, and a client that is connected twice or not at all.
pub record IsSteady (s : Stream) : Type 0 where
  pub positive : 1 ≤ s.backoff
  pub capped : s.backoff ≤ max_reconnect_backoff
  pub whole : IsWhole s.client

next_backoff-bounds :
    (poked : Bool) (b : ℕ)
    → 1 ≤ b
    → (1 ≤ next_backoff poked b) × (next_backoff poked b ≤ max_reconnect_backoff)
next_backoff-bounds true b h = (omega arith, omega arith)
next_backoff-bounds false b h = (omega arith, omega arith)

connected-bounds :
    (r : Result Failure (Unit {0})) (b : ℕ)
    → (1 ≤ b) × (b ≤ max_reconnect_backoff)
    → (1 ≤ connected_backoff r b) × (connected_backoff r b ≤ max_reconnect_backoff)
connected-bounds (ok done) b h = (omega arith, omega arith)
connected-bounds (raise e) b h = h

reconnect-IsSteady : (r : Round) (s : Stream) → IsSteady s → IsSteady (reconnect r s)
unfolding reconnect
reconnect-IsSteady r s h =
    let poked = s.client.reconnect_poke || r.poked in
    let waited = wait poked (close_transports s.client) in
    let b =
      connected-bounds (connect r.first r.second waited).1 (next_backoff poked s.backoff)
        (next_backoff-bounds poked s.backoff h.positive) in
    record { positive = b.0; capped = b.1; whole = connect-IsWhole r.first r.second waited }

take_in-IsSteady : (r : Round) (s : Stream) → IsSteady s → IsSteady (take_in r s)
take_in-IsSteady r s h = record {
  positive = h.positive;
  capped = h.capped;
  whole = stopping-IsWhole s.client h.whole;
}
  where
    stopping-IsWhole :
        (client : ClearanceClient)
        → IsWhole client
        → IsWhole (record client { stopping = r.stopping })
    stopping-IsWhole client (inl c) = inl (record {
      sub_transport = c.sub_transport;
      rpc_transport = c.rpc_transport;
      sub_proxy = c.sub_proxy;
      rpc_proxy = c.rpc_proxy;
    })
    stopping-IsWhole client (inr (n, m, o)) = inr (
      n,
      m,
      record {
        sub_transport = o.sub_transport;
        rpc_transport = o.rpc_transport;
        sub_proxy = o.sub_proxy;
        rpc_proxy = o.rpc_proxy;
      },
    )

-- Whatever its subscriptions, waits and attempts come to, a stream that waits between one second and
-- the cap, on a client that is connected twice or not at all, goes on so.
pub rounds-IsSteady :
    (rounds : List Round) (s : Stream) → IsSteady s → IsSteady (run_rounds rounds s)
unfolding run_rounds
rounds-IsSteady [] s h = h
rounds-IsSteady (r ∷ rest) s h =
    let steady = take_in-IsSteady r s h in
    go r.stopping steady
      (rounds-IsSteady rest (reconnect r (take_in r s)) (reconnect-IsSteady r (take_in r s) steady))
  where
    go :
        (stopping : Bool)
        → IsSteady (take_in r s)
        → IsSteady (run_rounds rest (reconnect r (take_in r s)))
        → IsSteady (elim stopping [
          | true ↦ take_in r s
          | false ↦ run_rounds rest (reconnect r (take_in r s))
        ])
    go true now later = now
    go false now later = later

-- The first of the two connections cannot be opened, or it can and the second cannot.
abbrev pub IsCut : Round → Type 0
IsCut r =
    ((e : Failure) × (r.first ≡ raise e))
    ⊎ ((n : ℕ) × (e : Failure) × (r.first ≡ ok n) × (r.second ≡ raise e))

-- Rounds without a poke, a stop or both connections.
abbrev pub Fails : List Round → Type 0
Fails [] = Unit
Fails (r ∷ rest) = (r.stopping ≡ false) × (r.poked ≡ false) × IsCut r × Fails rest

doubled : (k : ℕ) → min (min (2 ^ k) 10 * 2) 10 ≡ min (2 ^ suc k) 10
doubled k = omega arith

-- A failed round doubles the wait, and leaves no poke behind.
failed_round :
    (r : Round) (s : Stream)
    → r.poked ≡ false
    → s.client.reconnect_poke ≡ false
    → IsCut r
    → ((reconnect r (take_in r s)).backoff ≡ min (s.backoff * 2) max_reconnect_backoff)
      × ((reconnect r (take_in r s)).client.reconnect_poke ≡ false)
unfolding reconnect connect close_transports
failed_round r s calm quiet (inl (e, refused)) = rw (calm, quiet, refused) (refl, refl)
failed_round r s calm quiet (inr (n, e, opened, refused)) =
    rw (calm, quiet, opened, refused) (refl, refl)

run_on :
    (r : Round) (rest : List Round) (s : Stream)
    → r.stopping ≡ false
    → run_rounds (r ∷ rest) s ≡ run_rounds rest (reconnect r (take_in r s))
unfolding run_rounds
run_on r rest s running =
    ap (λ b. elim b [ true ↦ take_in r s | false ↦ run_rounds rest (reconnect r (take_in r s)) ])
      running

backoff_from :
    (k : ℕ) (rounds : List Round) (s : Stream)
    → s.backoff ≡ min (2 ^ k) max_reconnect_backoff
    → s.client.reconnect_poke ≡ false
    → Fails rounds
    → (run_rounds rounds s).backoff ≡ min (2 ^ (k + length rounds)) max_reconnect_backoff
unfolding run_rounds
backoff_from k [] s at quiet fails = let same : k + 0 ≡ k = omega arith in rw same at
backoff_from k (r ∷ rest) s at quiet (running, calm, cut, later) =
    let (wait', quiet') = failed_round r s calm quiet cut in
    let moved : k + suc (length rest) ≡ suc k + length rest = omega arith in
    ap (λ x. x.backoff) (run_on r rest s running)
    ∙ backoff_from (suc k) rest (reconnect r (take_in r s))
        (wait' ∙ ap (λ b. min (b * 2) max_reconnect_backoff) at ∙ doubled k) quiet' later
    ∙ ap (λ n. min (2 ^ n) max_reconnect_backoff) (sym moved)

-- After n rounds in a row that end without a stop, meet no poke and cannot open the first or the
-- second connection, from a fresh start that no poke waits for, the wait is 2 ^ n seconds, or the cap where that is less.
pub backoff_lem :
    (rounds : List Round) (client : ClearanceClient)
    → client.reconnect_poke ≡ false
    → Fails rounds
    → (run_rounds rounds (opened client)).backoff ≡ min (2 ^ length rounds) max_reconnect_backoff
backoff_lem rounds client quiet fails =
    let same : 0 + length rounds ≡ length rounds = omega arith in
    backoff_from 0 rounds (opened client) refl quiet fails
    ∙ ap (λ n. min (2 ^ n) max_reconnect_backoff) same
