-- ===== src/Wire/Errors.antt =====
-- wire/errors.py: the typed refusals of the hub, with their parameters.
use terok_clearance.Common.{String}

pub data ClearanceError : Type 0 where
  unknown_request : String → ClearanceError
  -- expected container and dest, then those of the call
  verdict_tuple_mismatch : String → String → String → String → ClearanceError
  invalid_action : String → ClearanceError
  -- action and stderr
  shield_cli_failed : String → String → ClearanceError
  -- the key of the call, then the hub's own
  unknown_container : String → String → ClearanceError
