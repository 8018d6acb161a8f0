-- ===== src/Tests/Helper.antt =====
-- The hub's client of the verdict helper, and the bind of a socket, at concrete inputs.
use terok_clearance.Common.{
  List, ℕ, strip, String, true, false, get, put, nat_eq, none, some, [], ◌∷◌, ok, raise, ◌≡◌, refl,
  arith,
}
use terok_clearance.Verdict.Client.{VerdictClient, os_error, other_error, HelperReply, Attempt}
use terok_clearance.Verdict.Client.Retry.{IsQuiet}
use terok_clearance.Verdict.Client.Overlap.{
  Action, begin, wake, cancel, connect, reply, waiting, calling, answered, step, run, no_connection,
}
use terok_clearance.Verdict.Client.Overlap.Moves.{IsOwned}
use terok_clearance.Verdict.Client.Overlap.Progress.{Advances, progress}
use terok_clearance.Verdict.Client.Overlap.Owned.{run-IsOwned, no_connection-IsOwned}
use terok_clearance.Wire.Socket.{Dir, Process, bind_hardened}
use terok_clearance.Wire.Socket.Bound.{IsHardened, bind-IsHardened}
use terok_clearance.Common.Int.{pos}
use terok_clearance.Common.Utf8.{decode}
use terok_clearance.Verdict.Shield.{Fate, exited, run_shield}
use terok_clearance.Tests.{c1}

abbrev connected : VerdictClient
connected = record { transport = some 1; proxy = some 1; closed = [] }

abbrev applied : HelperReply
applied = record { ok = true; stderr = none }

abbrev answering : Attempt
answering = record { connect = ok 2; call = λ c d a. ok applied }

abbrev broken : Attempt
broken = record { connect = raise (os_error "refused"); call = λ c d a. raise (os_error "reset") }

answering-IsQuiet : IsQuiet answering c1 "192.0.2.7" "allow"
answering-IsQuiet = record { connect = λ e. ground arith; call = λ e. ground arith }

broken-IsQuiet : IsQuiet broken c1 "192.0.2.7" "allow"
broken-IsQuiet = record { connect = λ e. ground arith; call = λ e. ground arith }

-- A parent directory of mode 0700, of user 1000, and a stale socket at the path.
abbrev home : Dir
home = record { uid = 1000; mode = 16832 }

abbrev process : Process
process = record { umask = 18; path = some true; calls = [] }

bound_here : (bind_hardened 1000 (ok home) (ok tt) (ok tt) (ok tt) (some true) process).1 ≡ ok tt
unfolding bind_hardened
bound_here = refl

bind-IsHardened_example :
    IsHardened 1000 home process
      (bind_hardened 1000 (ok home) (ok tt) (ok tt) (ok tt) (some true) process).0
bind-IsHardened_example =
    bind-IsHardened 1000 home (ok tt) (ok tt) (ok tt) (some true) process bound_here

-- A shield that applies every verdict, and writes a byte that begins no character.
abbrev spawn : String → List String → Fate
spawn binary arguments = exited (pos 0) (111 ∷ 107 ∷ 255 ∷ 10 ∷ [])

shield_ran : run_shield spawn (some "/usr/bin/terok-shield") c1 "192.0.2.7" "allow" ≡ (true, "ok�")
unfolding run_shield strip decode
shield_ran = refl

shield_ok : (run_shield spawn (some "/usr/bin/terok-shield") c1 "192.0.2.7" "allow").0 ≡ true
unfolding run_shield
shield_ok = refl

-- Two calls begin before there is a connection: the first connects, and the second uses that.
abbrev overlapping : List Action
overlapping =
    begin 1 ∷ begin 2 ∷ wake 1 ∷ wake 2 ∷ connect 1 (ok 7) ∷ wake 2 ∷ reply 2 (ok applied) ∷ []

shared_connection : run overlapping no_connection ≡ record no_connection {
  client = record { transport = some 7; proxy = some 7; closed = [] };
  calls = (1, calling false 7) ∷ (2, answered (true, "")) ∷ [];
  opened = 7 ∷ [];
}
unfolding run step get put
shared_connection = refl

run-IsOwned_example : IsOwned (run overlapping no_connection)
run-IsOwned_example = run-IsOwned overlapping no_connection no_connection-IsOwned

-- The call that connects is cancelled while the other waits for the lock.
abbrev contended : List Action
contended = begin 1 ∷ begin 2 ∷ wake 1 ∷ cancel 1 ∷ []

second_waits : get 2 (run contended no_connection).calls ≡ some (waiting false)
unfolding run step get put
second_waits = refl

progress_example :
    (j : ℕ) × Advances (raise other_error) (ok applied) j (run contended no_connection)
progress_example =
    progress (raise other_error) (ok applied) contended 2 (waiting false) second_waits (omega arith)
