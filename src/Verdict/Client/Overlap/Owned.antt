-- ===== src/Verdict/Client/Overlap/Owned.antt =====
-- verdict/client.py: what becomes of the connections of a `VerdictClient` whose calls overlap.
use terok_clearance.Common.{
  ℕ, Bool, false, Option, none, some, List, [], ◌∷◌, nat_eq, get, ◌≡◌, refl, ap, ◌∙◌, Result,
}
use terok_clearance.Verdict.Client.{CallError, HelperReply, disconnect}
use terok_clearance.Verdict.Client.Overlap.{
  Place, waiting, connecting, calling, answered, crashed, Overlap, take_lock, Action, begin, wake,
  cancel, connect, reply, stop, begun, woken, on_connect, on_reply, on_cancel, step, run,
  no_connection,
}
use terok_clearance.Verdict.Client.Overlap.Moves.{
  IsOwned, IsApart, is_connecting, moving, idle-IsOwned, begin_attempt-IsOwned, locked-IsOwned,
  released, on_connected-IsOwned, on_replied-IsOwned,
}

module _ (i : ℕ) (o : Overlap) (h : IsOwned o) where
  apart : (p : Option Place) → get i o.calls ≡ p → is_connecting p ≡ false → IsApart i o
  apart p same idle = moving i o (ap is_connecting same ∙ idle) h

  cancel-IsOwned : (p : Option Place) → get i o.calls ≡ p → IsOwned (on_cancel i p o)
  cancel-IsOwned none same = h
  cancel-IsOwned (some (waiting second)) same = idle-IsOwned i crashed o refl (apart _ same refl)
  cancel-IsOwned (some (connecting second)) same =
      idle-IsOwned i crashed _ refl (released i o (h.held i second same) h)
  cancel-IsOwned (some (calling second n)) same = idle-IsOwned i crashed o refl (apart _ same refl)
  cancel-IsOwned (some (answered r)) same = h
  cancel-IsOwned (some crashed) same = h

  begun-IsOwned : (p : Option Place) → get i o.calls ≡ p → IsOwned (begun i p o)
  begun-IsOwned none same = begin_attempt-IsOwned i false o.client.proxy o (apart _ same refl)
  begun-IsOwned (some p) same = h

  take_lock-IsOwned :
      (second : Bool) (lock : Option ℕ)
      → o.lock ≡ lock
      → is_connecting (get i o.calls) ≡ false
      → IsOwned (take_lock i second lock o)
  take_lock-IsOwned second none free idle =
      locked-IsOwned i second o.client.proxy o refl free idle h
  take_lock-IsOwned second (some holder) taken idle = h

  woken-IsOwned : (p : Option Place) → get i o.calls ≡ p → IsOwned (woken i p o)
  woken-IsOwned none same = h
  woken-IsOwned (some (waiting second)) same =
      take_lock-IsOwned second o.lock refl (ap is_connecting same)
  woken-IsOwned (some (connecting second)) same = h
  woken-IsOwned (some (calling second n)) same = h
  woken-IsOwned (some (answered r)) same = h
  woken-IsOwned (some crashed) same = h

  on_connect-IsOwned :
      (outcome : Result CallError ℕ) (p : Option Place)
      → get i o.calls ≡ p
      → IsOwned (on_connect i outcome p o)
  on_connect-IsOwned outcome none same = h
  on_connect-IsOwned outcome (some (waiting second)) same = h
  on_connect-IsOwned outcome (some (connecting second)) same =
      on_connected-IsOwned i second outcome o (h.held i second same) h
  on_connect-IsOwned outcome (some (calling second n)) same = h
  on_connect-IsOwned outcome (some (answered r)) same = h
  on_connect-IsOwned outcome (some crashed) same = h

  on_reply-IsOwned :
      (outcome : Result CallError HelperReply) (p : Option Place)
      → get i o.calls ≡ p
      → IsOwned (on_reply i outcome p o)
  on_reply-IsOwned outcome none same = h
  on_reply-IsOwned outcome (some (waiting second)) same = h
  on_reply-IsOwned outcome (some (connecting second)) same = h
  on_reply-IsOwned outcome (some (calling second n)) same =
      on_replied-IsOwned i second outcome o (ap is_connecting same) h
  on_reply-IsOwned outcome (some (answered r)) same = h
  on_reply-IsOwned outcome (some crashed) same = h

pub step-IsOwned : (action : Action) (o : Overlap) → IsOwned o → IsOwned (step action o)
unfolding step
step-IsOwned (begin i) o h = begun-IsOwned i o h (get i o.calls) refl
step-IsOwned (wake i) o h = woken-IsOwned i o h (get i o.calls) refl
step-IsOwned (cancel i) o h = cancel-IsOwned i o h (get i o.calls) refl
step-IsOwned (connect i outcome) o h = on_connect-IsOwned i o h outcome (get i o.calls) refl
step-IsOwned (reply i outcome) o h = on_reply-IsOwned i o h outcome (get i o.calls) refl
step-IsOwned stop o h = record {
  agreed = unfold disconnect in refl;
  accounted = unfold disconnect in h.accounted;
  held = h.held;
  taken = h.taken;
  alone = λ j mine. unfold disconnect in refl;
}

-- However the calls of one client overlap, are cancelled, or meet a stop of the client, and
-- whatever their connections and replies come to: from a client whose connections are owned, every
-- connection that was made is the current one or was closed, each once and in order, the transport
-- and the proxy are of one connection, and a call is connecting exactly when it has the lock, during
-- which there is no current connection.
pub run-IsOwned : (actions : List Action) (o : Overlap) → IsOwned o → IsOwned (run actions o)
unfolding run
run-IsOwned [] o h = h
run-IsOwned (action ∷ actions) o h = run-IsOwned actions (step action o) (step-IsOwned action o h)

pub no_connection-IsOwned : IsOwned no_connection
unfolding get
no_connection-IsOwned = record {
  agreed = refl;
  accounted = refl;
  held = λ i second found. absurd (cc found);
  taken = λ i mine. absurd (cc mine);
  alone = λ i mine. absurd (cc mine);
}
