-- ===== src/Verdict/Client/Overlap/Moves.antt =====
-- verdict/client.py: the moves of one call of a `VerdictClient` among others.
use terok_clearance.Common.{
  ℕ, Bool, true, false, Option, none, some, ◌∷◌, nat_eq, ◌==◌, get, if◌then◌else◌, ◌⊎◌, ◌≡◌, refl,
  ap, ◌∙◌, sym, get-put, eq_of_beq, Bool-cases, inl, inr, Result, ok, raise, arith,
}
use terok_clearance.Verdict.Client.{
  CallError, os_error, other_error, HelperReply, close, disconnect,
}
use terok_clearance.Verdict.Client.Overlap.{
  Place, waiting, connecting, calling, answered, crashed, Overlap, place, begin_attempt, fail,
  locked, on_connected, on_replied,
}

abbrev pub is_connecting : Option Place → Bool
is_connecting (some (connecting second)) = true
is_connecting _ = false

-- Every connection that was made is the current one or was closed, once; a call is connecting where it
-- has the lock, and then there is no current one.
pub record IsOwned (o : Overlap) : Type 0 where
  pub agreed : o.client.proxy ≡ o.client.transport
  pub accounted : o.opened ≡ close o.client.transport o.client.closed
  pub held : (i : ℕ) (second : Bool) → get i o.calls ≡ some (connecting second) → o.lock ≡ some i
  pub taken : (i : ℕ) → o.lock ≡ some i → is_connecting (get i o.calls) ≡ true
  pub alone : (i : ℕ) → o.lock ≡ some i → o.client.transport ≡ none

-- The same, but for whether the call `i`, which is about to move, has the lock.
pub record IsOwnedBut (i : ℕ) (o : Overlap) : Type 0 where
  pub agreed : o.client.proxy ≡ o.client.transport
  pub accounted : o.opened ≡ close o.client.transport o.client.closed
  pub held :
      (j : ℕ) (second : Bool)
      → (i == j) ≡ false
      → get j o.calls ≡ some (connecting second)
      → o.lock ≡ some j
  pub taken : (j : ℕ) → (i == j) ≡ false → o.lock ≡ some j → is_connecting (get j o.calls) ≡ true
  pub alone : (j : ℕ) → o.lock ≡ some j → o.client.transport ≡ none

-- The call `i` does not have the lock.
pub record IsApart (i : ℕ) (o : Overlap) : Type 0 where
  pub rest : IsOwnedBut i o
  pub apart : o.lock ≡ some i → true ≡ false

pub moving : (i : ℕ) (o : Overlap) → is_connecting (get i o.calls) ≡ false → IsOwned o → IsApart i o
moving i o idle h = record {
  rest = record {
    agreed = h.agreed;
    accounted = h.accounted;
    held = λ j second other found. h.held j second found;
    taken = λ j other mine. h.taken j mine;
    alone = h.alone;
  };
  apart = λ mine. sym (h.taken i mine) ∙ idle;
}

module _ (i : ℕ) where
  place-IsOwned :
      (p : Place) (o : Overlap)
      → (is_connecting (some p) ≡ true → o.lock ≡ some i)
      → (o.lock ≡ some i → is_connecting (some p) ≡ true)
      → IsOwnedBut i o
      → IsOwned (place i p o)
  place-IsOwned p o locks owns h = record {
    agreed = h.agreed;
    accounted = h.accounted;
    held =
        λ j second found. go j second (Bool-cases (i == j)) (sym (get-put i j p o.calls) ∙ found);
    taken = λ j mine. ap is_connecting (get-put i j p o.calls) ∙ back j (Bool-cases (i == j)) mine;
    alone = h.alone;
  }
    where
      go :
          (j : ℕ) (second : Bool)
          → ((i == j) ≡ true) ⊎ ((i == j) ≡ false)
          → (if i == j then some p else get j o.calls) ≡ some (connecting second)
          → o.lock ≡ some j
      go j second (inl same) found =
          locks (ap is_connecting (rw same at found)) ∙ ap some (eq_of_beq i j same)
      go j second (inr other) found = h.held j second other (rw other at found)

      back :
          (j : ℕ)
          → ((i == j) ≡ true) ⊎ ((i == j) ≡ false)
          → o.lock ≡ some j
          → is_connecting (if i == j then some p else get j o.calls) ≡ true
      back j (inl same) mine = rw same (owns (mine ∙ ap some (sym (eq_of_beq i j same))))
      back j (inr other) mine = rw other (h.taken j other mine)

  pub idle-IsOwned :
      (p : Place) (o : Overlap)
      → is_connecting (some p) ≡ false
      → IsApart i o
      → IsOwned (place i p o)
  idle-IsOwned p o idle h =
      place-IsOwned p o (λ busy. absurd (cc (idle, busy))) (λ mine. absurd (cc (h.apart mine)))
        h.rest

  disconnect-IsApart :
      (o : Overlap) → IsApart i o → IsApart i (record o { client = disconnect o.client })
  unfolding disconnect
  disconnect-IsApart o h = record {
    rest = record {
      agreed = refl;
      accounted = h.rest.accounted;
      held = h.rest.held;
      taken = h.rest.taken;
      alone = λ j mine. refl;
    };
    apart = h.apart;
  }

  pub begin_attempt-IsOwned :
      (second : Bool) (proxy : Option ℕ) (o : Overlap)
      → IsApart i o
      → IsOwned (begin_attempt i second proxy o)
  begin_attempt-IsOwned second (some n) o = idle-IsOwned (calling second n) o refl
  begin_attempt-IsOwned second none o = idle-IsOwned (waiting second) o refl

  fail-IsOwned :
      (second : Bool) (e : CallError) (o : Overlap) → IsApart i o → IsOwned (fail i second e o)
  unfolding fail
  fail-IsOwned second other_error o h = idle-IsOwned crashed o refl h
  fail-IsOwned true (os_error e) o h = idle-IsOwned (answered _) _ refl (disconnect-IsApart o h)
  fail-IsOwned false (os_error e) o h =
      begin_attempt-IsOwned true (disconnect o.client).proxy _ (disconnect-IsApart o h)

  pub locked-IsOwned :
      (second : Bool) (proxy : Option ℕ) (o : Overlap)
      → o.client.proxy ≡ proxy
      → o.lock ≡ none
      → is_connecting (get i o.calls) ≡ false
      → IsOwned o
      → IsOwned (locked i second proxy o)
  locked-IsOwned second (some n) o same free idle h =
      idle-IsOwned (calling second n) o refl (moving i o idle h)
  locked-IsOwned second none o same free idle h =
      place-IsOwned (connecting second) (record o { lock = some i }) (λ busy. refl) (λ mine. refl)
        (record {
          agreed = h.agreed;
          accounted = h.accounted;
          held = λ j again other found. absurd (cc (h.held j again found, free));
          taken = λ j other mine. absurd (ground (arith, other, mine));
          alone = λ j mine. sym h.agreed ∙ same;
        })

  pub released : (o : Overlap) → o.lock ≡ some i → IsOwned o → IsApart i (record o { lock = none })
  released o mine h = record {
    rest = record {
      agreed = h.agreed;
      accounted = h.accounted;
      held = λ j second other found. ground (arith, h.held j second found, mine, other);
      taken = λ j other locked. absurd (cc locked);
      alone = λ j locked. absurd (cc locked);
    };
    apart = λ locked. absurd (cc locked);
  }

  pub on_connected-IsOwned :
      (second : Bool) (outcome : Result CallError ℕ) (o : Overlap)
      → o.lock ≡ some i
      → IsOwned o
      → IsOwned (on_connected i second outcome o)
  unfolding on_connected
  on_connected-IsOwned second (raise e) o mine h =
      fail-IsOwned second e (record o { lock = none }) (released o mine h)
  on_connected-IsOwned second (ok n) o mine h =
      let free = released o mine h in
      idle-IsOwned (calling second n) _ refl (record {
        rest = record {
          agreed = refl;
          accounted =
              ap (λ ns. n ∷ ns) (h.accounted ∙ ap (λ t. close t o.client.closed) (h.alone i mine));
          held = free.rest.held;
          taken = free.rest.taken;
          alone = λ j locked. absurd (cc locked);
        };
        apart = free.apart;
      })

  pub on_replied-IsOwned :
      (second : Bool) (outcome : Result CallError HelperReply) (o : Overlap)
      → is_connecting (get i o.calls) ≡ false
      → IsOwned o
      → IsOwned (on_replied i second outcome o)
  unfolding on_replied
  on_replied-IsOwned second (raise e) o idle h = fail-IsOwned second e o (moving i o idle h)
  on_replied-IsOwned second (ok r) o idle h = idle-IsOwned (answered _) o refl (moving i o idle h)
