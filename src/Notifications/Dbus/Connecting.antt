-- ===== src/Notifications/Dbus/Connecting.antt =====
-- notifications/desktop.py: `connect` and `disconnect`.
use terok_clearance.Common.{
  ℕ, Option, none, some, List, [], ◌∷◌, nat_eq, ◌==◌, Result, ok, raise, ◌≡◌, ◌≢◌, ◌↔◌, ◌++◌,
  eq_of_beq, subst, sym, inl, inr, refl, ap, ◌∙◌, arith, Bool-cases,
}
use terok_clearance.Notifications.Dbus.{
  BusFailure, DbusNotifier, Setup, set_up, other_uids, try_uids, subscribe_bus, subscribe_to,
  connect, disconnect, drop_bus,
}

-- What a bus to be connected to comes from: the first user id, or the second where the first failed.
abbrev pub first_ok : Result BusFailure ℕ → Result BusFailure ℕ → Result BusFailure ℕ
first_ok (ok bus) second = ok bus
first_ok (raise e) second = second

try_uids_lem :
    (attempt : ℕ → Result BusFailure ℕ) (host euid : ℕ)
    → try_uids attempt host (other_uids host euid) ≡ first_ok (attempt host) (attempt euid)
unfolding try_uids
try_uids_lem attempt host euid = elim (Bool-cases (host == euid)) [
  | inl same ↦ rw same (once (attempt host) (attempt euid) (ap attempt (eq_of_beq host euid same)))
  | inr other ↦ rw other (either (attempt host) (attempt euid))
]
  where
    once : (a b : Result BusFailure ℕ) → a ≡ b → a ≡ first_ok a b
    once (ok bus) b e = refl
    once (raise x) b e = e

    either : (a b : Result BusFailure ℕ) → elim a [ ok bus ↦ ok bus | raise e ↦ b ] ≡ first_ok a b
    either (ok bus) b = refl
    either (raise e) b = refl

-- The bus that was opened.
abbrev pub bus_of : Result BusFailure ℕ → List ℕ
bus_of (ok bus) = bus ∷ []
bus_of (raise e) = []

abbrev pub Reply : Type 0
Reply = Result BusFailure (Unit {0})

module _ {C : Type 0} where
  Settled : Result BusFailure ℕ → DbusNotifier C → DbusNotifier C × Reply → Type 0
  Settled o n r =
      ((r.1 ≡ ok tt) ↔ (r.0.conn ≢ none))
      × ((disconnect r.0).conn ≡ none)
      × ((disconnect r.0).dropped ≡ bus_of o ++ n.dropped)

  subscribe_bus-Settled :
      (bus : ℕ) (s : Reply) (n : DbusNotifier C)
      → n.conn ≡ none
      → Settled (ok bus) n (subscribe_bus bus s n)
  unfolding Settled disconnect
  subscribe_bus-Settled bus (ok done) n h = ((λ e f. cc, λ e. refl), refl, refl)
  subscribe_bus-Settled bus (raise e) n h = (
    (λ f. absurd (ground arith), λ f. absurd (f h)),
    ap (λ o. (drop_bus o (record n { dropped = bus ∷ n.dropped })).conn) h ∙ h,
    ap (λ o. (drop_bus o (record n { dropped = bus ∷ n.dropped })).dropped) h,
  )

  subscribe_to-Settled :
      (o : Result BusFailure ℕ) (setup : ℕ → Setup) (n : DbusNotifier C)
      → n.conn ≡ none
      → Settled o n (subscribe_to o setup n)
  unfolding Settled disconnect
  subscribe_to-Settled (ok bus) setup n h = subscribe_bus-Settled bus (set_up (setup bus)) n h
  subscribe_to-Settled (raise e) setup n h = (
    (λ f. absurd (ground arith), λ f. absurd (f h)),
    ap (λ o. (drop_bus o n).conn) h ∙ h,
    ap (λ o. (drop_bus o n).dropped) h,
  )

  pub connect-fresh :
      (attempt : ℕ → Result BusFailure ℕ) (setup : ℕ → Setup) (host euid : ℕ) (n : DbusNotifier C)
      → n.conn ≡ none
      → connect attempt setup host euid n
        ≡ subscribe_to (first_ok (attempt host) (attempt euid)) setup n
  unfolding connect
  connect-fresh attempt setup host euid n h =
      ap (λ (o : Option ℕ). elim o [ some bus ↦ (n, ok tt) | none ↦ fresh ]) h
      ∙ ap (λ o. subscribe_to o setup n) (try_uids_lem attempt host euid)
    where
      fresh : DbusNotifier C × Reply
      fresh = subscribe_to (try_uids attempt host (other_uids host euid)) setup n

  -- A notifier without a connection connects to the bus of the host's user id, or where that fails to
  -- that of its own. Whatever fails after it, the call returns exactly when there is a connection then,
  -- and a disconnect afterwards leaves no connection and has closed the bus that was opened, if there
  -- was one: no bus leaks.
  pub connect-settled :
      (attempt : ℕ → Result BusFailure ℕ) (setup : ℕ → Setup) (host euid : ℕ) (n : DbusNotifier C)
      → n.conn ≡ none
      → (((connect attempt setup host euid n).1 ≡ ok tt)
          ↔ ((connect attempt setup host euid n).0.conn ≢ none))
        × ((disconnect (connect attempt setup host euid n).0).conn ≡ none)
        × ((disconnect (connect attempt setup host euid n).0).dropped
            ≡ bus_of (first_ok (attempt host) (attempt euid)) ++ n.dropped)
  unfolding Settled
  connect-settled attempt setup host euid n h =
      subst (Settled (first_ok (attempt host) (attempt euid)) n)
        (sym (connect-fresh attempt setup host euid n h))
        (subscribe_to-Settled (first_ok (attempt host) (attempt euid)) setup n h)
