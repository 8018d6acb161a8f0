-- ===== src/Verdict/Server.antt =====
-- verdict/server.py: `find_shield_binary` and `VerdictServer`. What the file system and the socket's
-- bind come to is an argument.
use terok_clearance.Common.{
  ℕ, String, Bool, true, false, ◌&&◌, Option, none, some, List, truthy, if◌then◌else◌, Result, ok,
  raise,
}
use terok_clearance.Wire.Socket.{BindFailure, Dir, Process, bind_hardened}
use terok_clearance.Verdict.Shield.{Fate, run_shield}

-- The `terok-shield` beside the interpreter: its path, whether it is a file, and whether it may be run.
pub record Sibling : Type 0 where
  pub path : String
  pub is_file : Bool
  pub is_executable : Bool

-- `find_shield_binary`, with what the search of `$PATH` finds
unfoldable pub find_shield_binary : Sibling → Option String → Option String
find_shield_binary sibling on_path =
    if sibling.is_file && sibling.is_executable then some sibling.path else on_path

-- `_shield_binary` and whether there is a `_server`
pub record VerdictServer : Type 0 where
  pub shield_binary : Option String
  pub server : Bool

abbrev pub given_or : Option String → Option String → Option String
given_or none found = found
given_or (some given) found = if truthy given then some given else found

-- `__init__`
unfoldable pub new_server : Option String → Sibling → Option String → VerdictServer
unfolding find_shield_binary
new_server shield_binary sibling on_path = record {
  shield_binary = given_or shield_binary (find_shield_binary sibling on_path);
  server = false;
}

abbrev pub bound_server :
    Process × Result BindFailure (Unit {0})
    → VerdictServer
    → VerdictServer × Process × Result BindFailure (Unit {0})
bound_server (p, ok done) s = (record s { server = true }, p, ok tt)
bound_server (p, raise e) s = (s, p, raise e)

-- `start`
unfoldable pub start :
    ℕ
    → Result BindFailure Dir
    → Result BindFailure (Unit {0})
    → Result BindFailure (Unit {0})
    → Result BindFailure (Unit {0})
    → Option Bool
    → Process
    → VerdictServer
    → VerdictServer × Process × Result BindFailure (Unit {0})
unfolding bind_hardened
start uid stat unlinked context factory left p s =
    bound_server (bind_hardened uid stat unlinked context factory left p) s

-- `stop`
unfoldable pub stop : VerdictServer → VerdictServer
stop s = record s { server = false }

-- `_apply`
unfoldable pub apply_shield :
    (String → List String → Fate) → String → String → String → VerdictServer → Bool × String
unfolding run_shield
apply_shield spawn container dest action s = run_shield spawn s.shield_binary container dest action

unfoldable pub until_signalled :
    (VerdictServer → VerdictServer)
    → VerdictServer × Process × Result BindFailure (Unit {0})
    → VerdictServer × Process × Result BindFailure (Unit {0})
unfolding stop
until_signalled meanwhile (s, p, ok done) = (stop (meanwhile s), p, ok tt)
until_signalled meanwhile (s, p, raise e) = (s, p, raise e)

-- `serve`, with what the start comes to, and what happens to the helper until the signal
unfoldable pub serve :
    (VerdictServer → VerdictServer × Process × Result BindFailure (Unit {0}))
    → (VerdictServer → VerdictServer)
    → VerdictServer
    → VerdictServer × Process × Result BindFailure (Unit {0})
unfolding until_signalled
serve started meanwhile s = until_signalled meanwhile (started s)
