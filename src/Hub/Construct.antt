-- ===== src/Hub/Construct.antt =====
-- hub/server.py: `ClearanceHub.__init__`.
pub mod Seeds
pub mod Served
use Prim.Native.Char.{code}
use terok_clearance.Common.{
  ℕ, String, Bool, true, false, ◌&&◌, ◌||◌, not, Option, none, some, List, [], ◌∷◌, map, Dict,
  Result, ok, raise, PyError, value_error, type_error, ◌>>=◌, ◌==◌, nat_eq, string_eq, leb,
  if◌then◌else◌, put, truthy, text_length, filter,
}
use terok_clearance.Hub.State.{Hub}
use terok_clearance.Hub.Mute.{seed_mute}

-- An argument that takes a collection of keys: a text would be split into its characters.
pub data Keys : Type 0 where
  one_string : String → Keys
  collection : List String → Keys

-- The `verdict_ttl` argument: not passed, or a TTL, where `none` disables expiry.
pub data TtlParam : Type 0 where
  unset : TtlParam
  seconds : Option ℕ → TtlParam

abbrev pub is_hex : ℕ → Bool
is_hex c = (leb b'0' c && leb c b'9') || (leb b'a' c && leb c b'f') || (leb b'A' c && leb c b'F')

unfoldable pub all_hex : String → Bool
all_hex String.[] = true
all_hex (String.◌∷◌ c s) = is_hex (code c) && all_hex s

-- `_SHORT_ID_RE.fullmatch`
unfoldable pub is_short_id : String → Bool
unfolding all_hex
is_short_id s = text_length s == 12 && all_hex s

unfoldable pub keys_of : Keys → Result PyError (List String)
keys_of (one_string s) = raise type_error
keys_of (collection ks) = ok ks

-- `dict.fromkeys(alias_keys, container) | {container: container}`
unfoldable pub from_keys : List String → String → Dict String String → Dict String String
from_keys [] value d = d
from_keys (k ∷ ks) value d = from_keys ks value (put k value d)

unfoldable pub mute_keys_for : Option String → List String → Dict String String
unfolding from_keys
mute_keys_for none aliases = []
mute_keys_for (some own) aliases = put own own (from_keys aliases own [])

-- The checks of `container` and its aliases.
unfoldable pub check_container : Option String → List String → Result PyError (Option String)
unfolding is_short_id
check_container none [] = ok none
check_container none (a ∷ aliases) = raise value_error
check_container (some own) aliases = if is_short_id own then ok (some own) else raise value_error

-- The TTL in force: the one passed, else the one that the configuration gives.
abbrev pub ttl_in_force : TtlParam → Option ℕ → Option ℕ
ttl_in_force unset configured = configured
ttl_in_force (seconds ttl) configured = ttl

abbrev pub blank : Option ℕ → Option String → Dict String String → Hub
blank ttl container mute_keys = record {
  verdict_ttl = ttl;
  subscribers = [];
  next_key = 0;
  live_verdicts = [];
  live_verdicts_ts = [];
  cleanup_task = false;
  container = container;
  mute_keys = mute_keys;
  muted = [];
  ingester = false;
  varlink_server = false;
}

unfoldable pub seed_all : List String → Hub → Hub
seed_all [] hub = hub
seed_all (k ∷ ks) hub = seed_all ks (seed_mute k hub)

-- `configured` is what the configuration file gives for the TTL.
unfoldable pub construct : TtlParam → Option ℕ → Option String → Keys → Keys → Result PyError Hub
unfolding keys_of check_container mute_keys_for seed_all
construct ttl configured container aliases muted = do
  given_aliases ← keys_of aliases
  given_muted ← keys_of muted
  let alias_keys = filter truthy given_aliases
  own ← check_container container alias_keys
  ok (seed_all given_muted (blank (ttl_in_force ttl configured) own (mute_keys_for own alias_keys)))
