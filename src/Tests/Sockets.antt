-- ===== src/Tests/Sockets.antt =====
-- A `MultiSocketSubscriber` on concrete sockets.
use terok_clearance.Common.{
  String, true, false, none, some, List, [], ◌∷◌, ◌++◌, ◌≡◌, refl, string_eq, ◌==◌, get, contains,
  if◌then◌else◌, ok, raise, All, length, Dict,
}
use terok_clearance.Common.Int.{pos}
use terok_clearance.Client.Connection.{disconnected, new_client, start}
use terok_clearance.Client.Pending.{new_subscriber}
use terok_clearance.Client.Sockets.{
  Child, SocketAttempt, MultiSocketSubscriber, new_multi, reconcile, has, stop_multi, parent_name,
  subscriber_for,
}
use terok_clearance.Client.Sockets.Addressed.{at_sockets, subscriber_for-get}
use terok_clearance.Wire.Paths.{default_socket_glob}
use terok_clearance.Wire.Paths.Rendered.{IsName, has_slash}
use terok_clearance.Client.Sockets.Scan.{joined, kept_or, get-reconcile}
use terok_clearance.Client.Sockets.Counts.{IsAccounted, IsShut}
use terok_clearance.Client.Sockets.Accounted.{
  Operation, begin, scan, finish, operate_all, operate_all-IsAccounted,
}
use terok_clearance.Client.Sockets.Joining.{ScanRound, rescan_all, rescan_all-joined}

abbrev path_a : String
path_a = "/run/user/1000/terok/clearance/aa/hub.sock"

abbrev path_b : String
path_b = "/run/user/1000/terok/clearance/bb/hub.sock"

parent_of_a : parent_name path_a ≡ "aa"
unfolding parent_name
parent_of_a = refl

parent_of_root : parent_name "/hub.sock" ≡ ""
unfolding parent_name
parent_of_root = refl

-- The first socket answers, any other refuses.
abbrev attempts : String → SocketAttempt
attempts path = record {
  first = if path == path_a then ok 1 else raise disconnected;
  second = ok 2;
}

abbrev fresh : MultiSocketSubscriber
fresh = record {
  socket_glob = "*";
  enabled_categories = none;
  rescan_interval_ms = pos 2000;
  subscribers = [];
  rescan_task = false;
  stopping = false;
  made = 0;
  released = [];
}

fresh_made : new_multi "*" none none (pos 2000) ≡ ok fresh
unfolding new_multi
fresh_made = refl

get-reconcile_example : get path_a (reconcile attempts (path_b ∷ path_a ∷ []) fresh).subscribers ≡ (
    if contains path_a (path_b ∷ path_a ∷ [])
    then kept_or (get path_a fresh.subscribers) (joined (attempts path_a) none)
    else none)
get-reconcile_example = get-reconcile attempts (path_b ∷ path_a ∷ []) path_a fresh

abbrev session : List Operation
session = begin attempts (path_b ∷ path_a ∷ []) ∷ scan attempts (path_b ∷ []) ∷ finish ∷ []

operate_all-IsAccounted_example :
    IsAccounted (operate_all session fresh)
    × (length (stop_multi (operate_all session fresh)).released ≡ (operate_all session fresh).made)
    × All IsShut (stop_multi (operate_all session fresh)).released
operate_all-IsAccounted_example =
    operate_all-IsAccounted "*" none none (pos 2000) session fresh_made

abbrev looping : MultiSocketSubscriber
looping = record fresh { rescan_task = true }

abbrev round : ScanRound
round = record { attempts = attempts; current = path_a ∷ [] }

abbrev empty_round : ScanRound
empty_round = record { attempts = attempts; current = [] }

abbrev child_a : Child
child_a = record {
  subscriber = new_subscriber none;
  client = record new_client {
    sub_transport = some 1;
    rpc_transport = some 2;
    sub_proxy = some 1;
    rpc_proxy = some 2;
    stream_task = true;
  };
}

child_a_lem : joined (attempts path_a) none ≡ some child_a
unfolding start new_subscriber
child_a_lem = refl

rescan_all-joined_example :
    has (get path_a (rescan_all ((empty_round ∷ []) ++ (round ∷ round ∷ [])) looping).subscribers)
    ≡ true
rescan_all-joined_example =
    rescan_all-joined path_a (empty_round ∷ []) round (round ∷ []) looping child_a (refl, refl)
      child_a_lem (unfold contains in (refl, (refl, tt)))

default_layout :
    default_socket_glob (some "/run//user/1000/") 1000 ≡ "/run/user/1000/terok/clearance/*/hub.sock"
unfolding default_socket_glob
default_layout = refl

abbrev two_containers : Dict String Child
two_containers = ("0123456789ab", child_a) ∷ ("ba9876543210", child_a) ∷ []

two_containers-All : All (λ kv. IsName kv.0) two_containers
unfolding has_slash
two_containers-All = (
  record { whole = refl; filled = refl; no_dot = refl },
  (record { whole = refl; filled = refl; no_dot = refl }, tt),
)

subscriber_for-get_example :
    subscriber_for "ba9876543210" (at_sockets none 1000 two_containers)
    ≡ get "ba9876543210" two_containers
subscriber_for-get_example =
    subscriber_for-get none 1000 "ba9876543210" two_containers two_containers-All
