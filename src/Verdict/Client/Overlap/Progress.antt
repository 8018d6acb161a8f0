-- ===== src/Verdict/Client/Overlap/Progress.antt =====
-- verdict/client.py: calls of a `VerdictClient` that overlap do not block one another for good.
use Prim.Native.Nat.{◌<◌}
use terok_clearance.Common.{
  ℕ, Bool, true, false, Option, none, some, List, nat_eq, get, ◌⊎◌, ◌≡◌, refl, ap, ◌∙◌, inl, inr,
  get-put, beq_self, if◌then◌else◌, Result, ok, raise, arith,
}
use terok_clearance.Verdict.Client.{CallError, os_error, other_error, HelperReply, disconnect}
use terok_clearance.Verdict.Client.Overlap.{
  Place, waiting, connecting, calling, answered, crashed, Overlap, place, fail, locked, take_lock,
  on_connected, on_replied, wake, connect, reply, step, Action, run, no_connection,
}
use terok_clearance.Verdict.Client.Overlap.Moves.{IsOwned, is_connecting}
use terok_clearance.Verdict.Client.Overlap.Owned.{run-IsOwned, no_connection-IsOwned}

-- How many moves a call has at most before it ends.
abbrev pub moves : Place → ℕ
moves (waiting false) = 6
moves (connecting false) = 5
moves (calling false n) = 4
moves (waiting true) = 3
moves (connecting true) = 2
moves (calling true n) = 1
moves (answered r) = 0
moves crashed = 0

abbrev pub moves_left : Option Place → ℕ
moves_left none = 7
moves_left (some p) = moves p

abbrev pub left : ℕ → Overlap → ℕ
left i o = moves_left (get i o.calls)

module _ (i : ℕ) where
  left-place : (p : Place) (o : Overlap) → left i (place i p o) ≡ moves p
  left-place p o =
      ap moves_left
        (get-put i i p o.calls ∙ ap (λ b. if b then some p else get i o.calls) (beq_self i))

  left-fail :
      (second : Bool) (e : CallError) (n : ℕ) (o : Overlap)
      → left i (fail i second e o) < moves (calling second n)
  unfolding fail disconnect
  left-fail true other_error n o = omega (arith, left-place crashed o)
  left-fail false other_error n o = omega (arith, left-place crashed o)
  left-fail true (os_error e) n o =
      omega (arith, left-place (answered _) (record o { client = disconnect o.client }))
  left-fail false (os_error e) n o =
      omega (arith, left-place (waiting true) (record o { client = disconnect o.client }))

  left-on_replied :
      (second : Bool) (r : Result CallError HelperReply) (n : ℕ) (o : Overlap)
      → left i (on_replied i second r o) < moves (calling second n)
  unfolding on_replied
  left-on_replied second (raise e) n o = left-fail second e n o
  left-on_replied true (ok r) n o = omega (arith, left-place (answered _) o)
  left-on_replied false (ok r) n o = omega (arith, left-place (answered _) o)

  left-on_connected :
      (second : Bool) (c : Result CallError ℕ) (o : Overlap)
      → left i (on_connected i second c o) < moves (connecting second)
  unfolding on_connected
  left-on_connected true (raise e) o = omega (arith, left-fail true e 0 (record o { lock = none }))
  left-on_connected false (raise e) o =
      omega (arith, left-fail false e 0 (record o { lock = none }))
  left-on_connected true (ok n) o = omega (arith, left-place (calling true n) o)
  left-on_connected false (ok n) o = omega (arith, left-place (calling false n) o)

  left-locked :
      (second : Bool) (proxy : Option ℕ) (o : Overlap)
      → left i (locked i second proxy o) < moves (waiting second)
  left-locked true (some n) o = omega (arith, left-place (calling true n) o)
  left-locked false (some n) o = omega (arith, left-place (calling false n) o)
  left-locked true none o = omega (arith, left-place (connecting true) (record o { lock = some i }))
  left-locked false none o =
      omega (arith, left-place (connecting false) (record o { lock = some i }))

  left-take_lock :
      (second : Bool) (lock : Option ℕ) (o : Overlap)
      → lock ≡ none
      → left i (take_lock i second lock o) < moves (waiting second)
  left-take_lock second none o free = left-locked second o.client.proxy o
  left-take_lock second (some j) o taken = absurd (cc taken)

-- A step that brings the call `j` nearer to its end.
abbrev pub Advances : Result CallError ℕ → Result CallError HelperReply → ℕ → Overlap → Type 0
Advances c r j o =
    (left j (step (wake j) o) < left j o)
    ⊎ (left j (step (connect j c) o) < left j o)
    ⊎ (left j (step (reply j r) o) < left j o)

module _ (c : Result CallError ℕ) (r : Result CallError HelperReply) (o : Overlap) where
  called :
      (i : ℕ) (second : Bool) (n : ℕ) → get i o.calls ≡ some (calling second n) → Advances c r i o
  unfolding step
  called i second n same = inr (inr (rw same (left-on_replied i second r n o)))

  connects : (i : ℕ) (second : Bool) → get i o.calls ≡ some (connecting second) → Advances c r i o
  unfolding step
  connects i second same = inr (inl (rw same (left-on_connected i second c o)))

  wakes :
      (i : ℕ) (second : Bool)
      → get i o.calls ≡ some (waiting second)
      → o.lock ≡ none
      → Advances c r i o
  unfolding step
  wakes i second same free = inl (rw same (left-take_lock i second o.lock o free))

  holder-Advances :
      (j : ℕ) (p : Option Place) → get j o.calls ≡ p → is_connecting p ≡ true → Advances c r j o
  holder-Advances j (some (connecting second)) same busy = connects j second same
  holder-Advances j none same busy = absurd (cc busy)
  holder-Advances j (some (waiting second)) same busy = absurd (cc busy)
  holder-Advances j (some (calling second n)) same busy = absurd (cc busy)
  holder-Advances j (some (answered a)) same busy = absurd (cc busy)
  holder-Advances j (some crashed) same busy = absurd (cc busy)

  waiter :
      (i : ℕ) (second : Bool) (lock : Option ℕ)
      → IsOwned o
      → get i o.calls ≡ some (waiting second)
      → o.lock ≡ lock
      → (j : ℕ) × Advances c r j o
  waiter i second none h same free = (i, wakes i second same free)
  waiter i second (some j) h same mine =
      (j, holder-Advances j (get j o.calls) refl (h.taken j mine))

  owned_progress :
      (i : ℕ) (p : Place)
      → IsOwned o
      → get i o.calls ≡ some p
      → 0 < moves p
      → (j : ℕ) × Advances c r j o
  owned_progress i (waiting second) h same more = waiter i second o.lock h same refl
  owned_progress i (connecting second) h same more = (i, connects i second same)
  owned_progress i (calling second n) h same more = (i, called i second n same)
  owned_progress i (answered a) h same more = absurd (omega arith)
  owned_progress i crashed h same more = absurd (omega arith)

-- However calls of one new client overlap, are cancelled, or meet a stop of it: as long as one of
-- them has not ended, one of them can be brought nearer to its end, by the lock, by what its
-- connection comes to, or by its reply, whatever those are.
pub progress :
    (c : Result CallError ℕ) (r : Result CallError HelperReply) (actions : List Action) (i : ℕ)
    (p : Place)
    → get i (run actions no_connection).calls ≡ some p
    → 0 < moves p
    → (j : ℕ) × Advances c r j (run actions no_connection)
progress c r actions i p =
    owned_progress c r (run actions no_connection) i p
      (run-IsOwned actions no_connection no_connection-IsOwned)
