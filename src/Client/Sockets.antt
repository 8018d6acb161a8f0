-- ===== src/Client/Sockets.antt =====
-- client/subscriber.py: `MultiSocketSubscriber`. A child is an `EventSubscriber` with its client. What
-- the two connections of a new child come to is an argument; the children of one scan each touch their own
-- path, so they are taken one after another.
pub mod Scan
pub mod Counts
pub mod Accounted
pub mod Joining
pub mod Addressed
pub mod Muting
use terok_clearance.Common.{
  ℕ, suc, ◌+◌, Char, code, String, Bool, true, false, not, ◌||◌, Option, none, some, List, [], ◌∷◌,
  ◌++◌, map, Dict, string_eq, ◌==◌, get, put, remove, contains, filter, truthy, nat_beq,
  if◌then◌else◌, Result, ok, raise, ◌>>=◌, PyError, value_error, ◌&&◌, concat, nat_eq,
}
use terok_clearance.Common.Int.{ℤ, pos, negsuc}
use terok_clearance.Client.Connection.{Failure, ClearanceClient, new_client, start, stop}
use terok_clearance.Client.Rpc.{set_mute, mutes}
use terok_clearance.Wire.Paths.{path_parts}
use terok_clearance.Client.Pending.{EventSubscriber, new_subscriber}

pub record Child : Type 0 where
  pub subscriber : EventSubscriber
  pub client : ClearanceClient

-- What the two attempts to connect of a child's client come to.
pub record SocketAttempt : Type 0 where
  pub first : Result Failure ℕ
  pub second : Result Failure ℕ

-- `rescan_task` is whether there is a task and it is not done. For the proofs, `made` counts the
-- children that were made and `released` holds those that were stopped, the newest first.
pub record MultiSocketSubscriber : Type 0 where
  pub socket_glob : String
  pub enabled_categories : Option (List String)
  pub rescan_interval_ms : ℤ
  pub subscribers : Dict String Child
  pub rescan_task : Bool
  pub stopping : Bool
  pub made : ℕ
  pub released : List Child

abbrev pub is_positive : ℤ → Bool
is_positive (pos n) = not (nat_beq n 0)
is_positive (negsuc n) = false

-- `__init__`, with the default glob, which is used for a missing or an empty one
unfoldable pub new_multi :
    String → Option String → Option (List String) → ℤ → Result PyError MultiSocketSubscriber
new_multi default_glob socket_glob enabled_categories rescan_interval_ms =
    if is_positive rescan_interval_ms
    then ok record {
      socket_glob = elim socket_glob [
        | none ↦ default_glob
        | some given ↦ if truthy given then given else default_glob
      ];
      enabled_categories = enabled_categories;
      rescan_interval_ms = rescan_interval_ms;
      subscribers = [];
      rescan_task = false;
      stopping = false;
      made = 0;
      released = [];
    }
    else raise value_error

abbrev pub new_child : MultiSocketSubscriber → Child
new_child m = record { subscriber = new_subscriber m.enabled_categories; client = new_client }

-- `EventSubscriber.stop`, of which only the client and the maps are seen here.
unfoldable pub stop_child : Child → Child
unfolding stop
stop_child c = record {
  subscriber = record c.subscriber { pending = []; shield_down_notifs = [] };
  client = stop c.client;
}

-- A child that was started, or one that raised and was stopped.
abbrev pub keep_or_skip :
    String
    → Child
    → ClearanceClient × Result Failure (Unit {0})
    → MultiSocketSubscriber
    → MultiSocketSubscriber
keep_or_skip path child (client, ok done) m = record m {
  subscribers = put path (record child { client = client }) m.subscribers;
  made = suc m.made;
}
keep_or_skip path child (client, raise e) m = record m {
  made = suc m.made;
  released = stop_child (record child { client = client }) ∷ m.released;
}

abbrev pub has {ℓ} : {A : Type ℓ} → Option A → Bool
has none = false
has (some a) = true

-- `_add_socket`
unfoldable pub add_socket : SocketAttempt → String → MultiSocketSubscriber → MultiSocketSubscriber
unfolding start stop_child new_subscriber
add_socket attempt path m =
    if has (get path m.subscribers)
    then m
    else keep_or_skip path (new_child m) (start attempt.first attempt.second new_client) m

abbrev pub release : String → Option Child → MultiSocketSubscriber → MultiSocketSubscriber
release path none m = m
release path (some child) m = record m {
  subscribers = remove path m.subscribers;
  released = stop_child child ∷ m.released;
}

-- `_remove_socket`
unfoldable pub remove_socket : String → MultiSocketSubscriber → MultiSocketSubscriber
unfolding stop_child
remove_socket path m = release path (get path m.subscribers) m

unfoldable pub add_sockets :
    (String → SocketAttempt) → List String → MultiSocketSubscriber → MultiSocketSubscriber
unfolding add_socket
add_sockets attempts [] m = m
add_sockets attempts (path ∷ paths) m =
    add_sockets attempts paths (add_socket (attempts path) path m)

unfoldable pub remove_sockets : List String → MultiSocketSubscriber → MultiSocketSubscriber
unfolding remove_socket
remove_sockets [] m = m
remove_sockets (path ∷ paths) m = remove_sockets paths (remove_socket path m)

abbrev pub keys : Dict String Child → List String
keys = map (λ kv. kv.0)

-- `_reconcile`, with the paths that the glob matches
unfoldable pub reconcile :
    (String → SocketAttempt) → List String → MultiSocketSubscriber → MultiSocketSubscriber
unfolding add_sockets remove_sockets filter contains
reconcile attempts current m =
    let existing = keys m.subscribers in
    let to_add = filter (λ path. not (contains path existing)) current in
    let to_remove = filter (λ path. not (contains path current)) existing in
    remove_sockets to_remove (add_sockets attempts to_add m)

-- `start`
unfoldable pub start_multi :
    (String → SocketAttempt) → List String → MultiSocketSubscriber → MultiSocketSubscriber
unfolding reconcile
start_multi attempts current m =
    if m.rescan_task
    then m
    else (let scanned = reconcile attempts current (record m { stopping = false }) in
        record scanned { rescan_task = true })

-- A round of `_rescan_loop`, from one `sleep` to the next.
unfoldable pub rescan :
    (String → SocketAttempt) → List String → MultiSocketSubscriber → MultiSocketSubscriber
unfolding reconcile
rescan attempts current m =
    if not m.rescan_task
    then m
    else if m.stopping
    then record m { rescan_task = false }
    else reconcile attempts current m

-- `stop`
unfoldable pub stop_multi : MultiSocketSubscriber → MultiSocketSubscriber
unfolding stop_child
stop_multi m = record m {
  stopping = true;
  rescan_task = false;
  subscribers = [];
  released = map (λ kv. stop_child kv.1) m.subscribers ++ m.released;
}

-- The second of the parts, which stand with the last one first.
abbrev pub second_part : List String → String
second_part [] = ""
second_part (name ∷ []) = ""
second_part (name ∷ parent ∷ parts) = parent

-- `Path(path).parent.name`
unfoldable pub parent_name : String → String
unfolding path_parts
parent_name path = second_part (path_parts path "" [])

-- `_subscriber_for`
unfoldable pub subscriber_for : String → Dict String Child → Option Child
unfolding parent_name
subscriber_for container_id [] = none
subscriber_for container_id ((path, child) ∷ children) =
    if parent_name path == container_id then some child else subscriber_for container_id children

-- `set_mute`, with what the hub's reply comes to
unfoldable pub set_mute_of :
    Result Failure Bool → String → MultiSocketSubscriber → Result Failure (Option Bool)
unfolding subscriber_for set_mute
set_mute_of reply container_id m = elim (subscriber_for container_id m.subscribers) [
  | none ↦ ok none
  | some child ↦ set_mute reply child.client
]

abbrev pub among : String → Option (List String) → Option Bool
among container_id none = none
among container_id (some muted) = some (contains container_id muted)

-- `is_muted`
unfoldable pub is_muted :
    Result Failure (List String) → String → MultiSocketSubscriber → Result Failure (Option Bool)
unfolding subscriber_for mutes contains
is_muted reply container_id m = elim (subscriber_for container_id m.subscribers) [
  | none ↦ ok none
  | some child ↦ mutes reply child.client >>= λ muted. ok (among container_id muted)
]
