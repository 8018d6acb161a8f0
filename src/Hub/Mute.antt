-- ===== src/Hub/Mute.antt =====
-- hub/server.py: whose prompts are dropped.
pub mod Prompts
pub mod Control
use Prim.Native.Nat.{Ordering}
use Prim.Native.String.{compare}
use terok_clearance.Common.{
  String, Bool, true, false, Option, none, some, List, [], ◌∷◌, Result, ok, raise, ◌>>=◌, string_eq,
  get, contains, add, discard, if◌then◌else◌,
}
use terok_clearance.Wire.Errors.{ClearanceError, unknown_container}
use terok_clearance.Hub.State.{Hub}

abbrev pub known_key : String → String → Option String → Result ClearanceError String
known_key container own none = raise (unknown_container container own)
known_key container own (some key) = ok key

-- `_mute_key`
unfoldable pub mute_key : Hub → String → Result ClearanceError String
mute_key hub container = elim hub.container [
  | none ↦ ok container
  | some own ↦ known_key container own (get container hub.mute_keys)
]

unfoldable pub seed_mute_as : Result ClearanceError String → Hub → Hub
seed_mute_as (raise e) hub = hub
seed_mute_as (ok key) hub = record hub { muted = add key hub.muted }

-- `_seed_mute`
unfoldable pub seed_mute : String → Hub → Hub
unfolding mute_key seed_mute_as
seed_mute container hub = seed_mute_as (mute_key hub container) hub

unfoldable pub mute_as : String → Bool → Hub → Hub
mute_as key muted hub = record hub {
  muted = if muted then add key hub.muted else discard key hub.muted;
}

unfoldable pub set_mute_as :
    Bool → Result ClearanceError String → Hub → Hub × Result ClearanceError Bool
unfolding mute_as
set_mute_as muted (raise e) hub = (hub, raise e)
set_mute_as muted (ok key) hub =
    let hub' = mute_as key muted hub in (hub', ok (contains key hub'.muted))

-- `_set_mute`: the new state, and the mute state in force.
unfoldable pub set_mute : String → Bool → Hub → Hub × Result ClearanceError Bool
unfolding mute_key set_mute_as
set_mute container muted hub = set_mute_as muted (mute_key hub container) hub

abbrev pub text_le : String → String → Bool
text_le s t = elim (compare s t) [ Ordering.gt ↦ false | _ ↦ true ]

unfoldable pub insert_sorted : String → List String → List String
insert_sorted s [] = s ∷ []
insert_sorted s (t ∷ ts) = if text_le s t then s ∷ t ∷ ts else t ∷ insert_sorted s ts

-- `sorted(…)` of a set of texts
unfoldable pub sorted : List String → List String
unfolding insert_sorted
sorted [] = []
sorted (s ∷ ts) = insert_sorted s (sorted ts)

-- `_mutes`
unfoldable pub mutes : Hub → List String
unfolding sorted
mutes hub = sorted hub.muted
