-- ===== src/Verdict/Shield.antt =====
-- verdict/server.py and verdict/interface.py: the run of shield, and the reply of `Apply`. What becomes
-- of the process is an argument.
pub mod Outcome
use terok_clearance.Common.{
  ℕ, zero, suc, String, Bool, true, false, Option, none, some, List, [], ◌∷◌, concat, strip,
  if◌then◌else◌, truthy, Result, ok, raise, take,
}
use terok_clearance.Common.Int.{ℤ, pos, negsuc}
use terok_clearance.Common.Utf8.{decode}

-- `_STDERR_CAP_BYTES`
abbrev pub stderr_cap_bytes : ℕ
stderr_cap_bytes = 512

-- The process is not spawned, with the error's text; it does not end in time; or it ends with a return
-- code and the bytes that it wrote to stderr.
pub data Fate : Type 0 where
  not_spawned : String → Fate
  timed_out : Fate
  exited : ℤ → List ℕ → Fate

abbrev pub is_zero : ℤ → Bool
is_zero (pos zero) = true
is_zero (pos (suc n)) = false
is_zero (negsuc n) = false

unfoldable pub report : Fate → Bool × String
report (not_spawned e) = (false, concat "spawn failed: " e)
report timed_out = (false, "timed out after 10.0s")
report (exited code output) = (is_zero code, strip (decode (take stderr_cap_bytes output)))

-- `run_shield`, with the fate of each command line.
unfoldable pub run_shield :
    (String → List String → Fate) → Option String → String → String → String → Bool × String
unfolding report
run_shield spawn none container dest action = (false, "terok-shield not found on PATH")
run_shield spawn (some binary) container dest action =
    if truthy binary
    then report (spawn binary (action ∷ container ∷ dest ∷ []))
    else (false, "terok-shield not found on PATH")

-- What the helper's callable comes to: its answer, a cancellation, or an exception with its text.
pub data Helped : Type 0 where
  answered : Bool → String → Helped
  cancelled : Helped
  crashed : String → Helped

-- `Apply`: a cancellation goes on, any other exception is a reply.
unfoldable pub apply_reply : Helped → Option (Bool × String)
apply_reply (answered done stderr) = some (done, stderr)
apply_reply cancelled = none
apply_reply (crashed e) = some (false, concat "internal verdict helper error: " e)
