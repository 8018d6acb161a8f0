-- ===== src/Wire/Interface.antt =====
-- wire/interface.py: `Clearance1Interface`. A callable is a function of the state behind the interface.
use terok_clearance.Common.{String, Bool, List, Result}
use terok_clearance.Wire.Errors.{ClearanceError}

-- The callables that the constructor is given; a stream is known by its key, and a
-- verdict may raise more than a typed error.
pub record Clearance1 (S K E : Type 0) : Type 0 where
  pub event_stream_factory : S → S × K
  pub apply_verdict : String → String → String → String → S → S × Result E Bool
  pub set_mute : String → Bool → S → S × Result ClearanceError Bool
  pub mutes : S → List String

module _ {S K E : Type 0} (interface : Clearance1 S K E) where
  -- `Subscribe`, up to its first event
  unfoldable pub subscribe_call : S → S × K
  subscribe_call = interface.event_stream_factory

  -- `Verdict`
  unfoldable pub verdict_call : String → String → String → String → S → S × Result E Bool
  verdict_call container request_id dest action =
      interface.apply_verdict container request_id dest action

  -- `SetMute`
  unfoldable pub set_mute_call : String → Bool → S → S × Result ClearanceError Bool
  set_mute_call container muted = interface.set_mute container muted

  -- `Mutes`
  unfoldable pub mutes_call : S → List String
  mutes_call = interface.mutes
