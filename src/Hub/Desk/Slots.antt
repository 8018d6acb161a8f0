-- ===== src/Hub/Desk/Slots.antt =====
-- hub/server.py: how many verdicts on a request may still be applied: one while it is open, and one for
-- each that waits for shield.
use terok_clearance.Common.{
  ℕ, zero, suc, ◌+◌, ◌-◌, ◌≤◌, String, Bool, true, false, ◌&&◌, Option, none, some, List, [], ◌∷◌,
  ◌≡◌, refl, sym, ap, ◌∙◌, arith, string_eq, ◌==◌, inl, inr, Bool-cases, eq_of_beq, ltb, contains,
  none_if, if◌then◌else◌,
}
use terok_clearance.Domain.Events.{ClearanceEvent, verdict_actions}
use terok_clearance.Hub.Relay.{binds, retires, is_of}
use terok_clearance.Hub.Desk.{
  Entry, Ticket, Desk, Command, ignore, hear, expire, claim, settle, forget, close, heard, time_of,
  claimed, take_at, settled, forgotten, obey,
}

abbrev pub one_if : Bool → ℕ
one_if true = 1
one_if false = 0

abbrev pub open_count : Option Entry → ℕ
open_count none = 0
open_count (some e) = 1

unfoldable pub ticket_count : String → List Ticket → ℕ
ticket_count k [] = 0
ticket_count k (t ∷ ts) = one_if (t.request_id == k) + ticket_count k ts

unfoldable pub slots : String → Desk → ℕ
unfolding ticket_count
slots k desk = open_count (desk.table k) + ticket_count k desk.tickets

-- Whether a command has the request asked about.
abbrev pub asks : String → Command → ℕ
asks k (hear now event) = one_if (binds event && event.request_id == k)
asks k _ = 0

abbrev pub applies_ticket : String → Bool → Option (Ticket × List Ticket) → ℕ
applies_ticket k applied none = 0
applies_ticket k applied (some (t, others)) = one_if (applied && t.request_id == k)

-- Whether a command reports that shield applied a verdict on the request.
abbrev pub applies : String → Command → Desk → ℕ
applies k (settle i applied) desk = applies_ticket k applied (take_at i desk.tickets)
applies k _ desk = 0

module _ (k : String) where
  abbrev PickedCount : Option (Ticket × List Ticket) → ℕ → Type 0
  PickedCount none n = Unit
  PickedCount (some (t, others)) n = n ≡ one_if (t.request_id == k) + ticket_count k others

  take_at-count : (i : ℕ) (ts : List Ticket) → PickedCount (take_at i ts) (ticket_count k ts)
  unfolding take_at ticket_count
  take_at-count i [] = tt
  take_at-count zero (t ∷ ts) = refl
  take_at-count (suc i) (t ∷ ts) = go (take_at i ts) (take_at-count i ts)
    where
      go :
          (p : Option (Ticket × List Ticket))
          → PickedCount p (ticket_count k ts)
          → PickedCount
              (elim p [ none ↦ none | some (w, ws) ↦ some (w, t ∷ ws) ])
              (ticket_count k (t ∷ ts))
      go none h = tt
      go (some (w, ws)) h = omega (arith, h)

  none_if-open : (p : Entry → Bool) (e : Option Entry) → open_count (none_if p e) ≤ open_count e
  none_if-open p none = omega arith
  none_if-open p (some e) = go (p e)
    where
      go : (b : Bool) → open_count (if b then none else some e) ≤ 1
      go true = omega arith
      go false = omega arith

  heard-open :
      (now : ℕ) (event : ClearanceEvent) (e : Option Entry)
      → open_count (heard now event k e)
        ≤ one_if (binds event && event.request_id == k) + open_count e
  heard-open now event e = elim (Bool-cases (binds event)) [
    | inl prompt ↦ elim (Bool-cases (event.request_id == k)) [
      | inl same ↦ rw (prompt, same) (omega arith)
      | inr other ↦ rw (prompt, other) (omega arith)
    ]
    | inr quiet ↦ elim (Bool-cases (retires event)) [
      | inl ends ↦ rw (quiet, ends) (omega (arith, none_if-open (λ e. is_of event.container e.0) e))
      | inr stays ↦ rw (quiet, stays) (omega arith)
    ]
  ]

  timed_open : (c d : String) (e : Option Entry) (t : ℕ) → time_of c d e ≡ some t → open_count e ≡ 1
  timed_open c d none t found = absurd (cc found)
  timed_open c d (some e) t found = refl

  claimed-slots :
      (c j d a : String) (t : Option ℕ) (desk : Desk)
      → time_of c d (desk.table j) ≡ t
      → slots k (claimed c j d a t desk) ≤ slots k desk
  unfolding slots ticket_count
  claimed-slots c j d a none desk found = omega arith
  claimed-slots c j d a (some t) desk found = elim (Bool-cases (j == k)) [
    | inl same ↦ rw same (omega (arith, was_open (eq_of_beq j k same)))
    | inr other ↦ rw other (omega arith)
  ]
    where
      was_open : j ≡ k → open_count (desk.table k) ≡ 1
      was_open same =
          ap (λ i. open_count (desk.table i)) (sym same) ∙ timed_open c d (desk.table j) t found

  settled-slots :
      (applied : Bool) (p : Option (Ticket × List Ticket)) (desk : Desk)
      → PickedCount p (ticket_count k desk.tickets)
      → applies_ticket k applied p + slots k (settled applied p desk) ≤ slots k desk
  unfolding slots
  settled-slots applied none desk h = omega arith
  settled-slots true (some (t, others)) desk h = omega (arith, h)
  settled-slots false (some (t, others)) desk h = elim (Bool-cases (t.request_id == k)) [
    | inl same ↦ rw same (omega (arith, rw same at h))
    | inr other ↦ rw other (omega (arith, rw other at h))
  ]

  forgotten-slots :
      (p : Option (Ticket × List Ticket)) (desk : Desk)
      → PickedCount p (ticket_count k desk.tickets)
      → slots k (forgotten p desk) ≤ slots k desk
  unfolding slots
  forgotten-slots none desk h = omega arith
  forgotten-slots (some (t, others)) desk h = omega (arith, h)

  -- A command that has the request asked about opens one slot for it at most; each application of a
  -- verdict on it uses one up, and no command makes any more.
  pub obey-slots :
      (c : Command) (desk : Desk)
      → applies k c desk + slots k (obey c desk) ≤ asks k c + slots k desk
  unfolding obey
  obey-slots ignore desk = omega arith
  obey-slots (hear now event) desk =
      unfold slots in omega (arith, heard-open now event (desk.table k))
  obey-slots (expire now ttl) desk =
      unfold slots in omega (arith, none_if-open (λ e. ltb ttl (now - e.1)) (desk.table k))
  obey-slots (claim c j d a) desk = elim (Bool-cases (contains a verdict_actions)) [
    | inl known ↦
        rw known (omega (arith, claimed-slots c j d a (time_of c d (desk.table j)) desk refl))
    | inr unknown ↦ rw unknown (omega arith)
  ]
  obey-slots (settle i applied) desk =
      omega
        (arith, settled-slots applied (take_at i desk.tickets) desk (take_at-count i desk.tickets))
  obey-slots (forget i) desk =
      omega (arith, forgotten-slots (take_at i desk.tickets) desk (take_at-count i desk.tickets))
  obey-slots close desk = unfold slots in omega arith
