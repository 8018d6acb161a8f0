-- ===== src/Tests/Construction.antt =====
-- Hubs that the constructor builds and refuses.
use terok_clearance.Common.{
  none, some, [], ◌∷◌, ◌≡◌, refl, string_eq, contains, filter, ok, raise, value_error, type_error,
  add, put, get,
}
use terok_clearance.Hub.State.{Hub}
use terok_clearance.Hub.Mute.{seed_mute}
use terok_clearance.Hub.Construct.{one_string, collection, unset, construct, blank}
use terok_clearance.Hub.Lifecycle.Running.{IsDown}
use terok_clearance.Tests.{c1, idle}

abbrev alice_hub : Hub
alice_hub = record (blank (some 600) (some c1) (("alice", c1) ∷ (c1, c1) ∷ [])) { muted = c1 ∷ [] }

alice_built :
    construct unset
      (some 600)
      (some c1)
      (collection ("alice" ∷ "" ∷ []))
      (collection ("bob" ∷ "alice" ∷ []))
    ≡ ok alice_hub
unfolding construct seed_mute get put filter add contains
alice_built = refl

one_string_refused :
    construct unset (some 600) (some c1) (one_string "alice") (collection []) ≡ raise type_error
unfolding construct
one_string_refused = refl

aliases_refused :
    construct unset (some 600) none (collection ("alice" ∷ [])) (collection []) ≡ raise value_error
unfolding construct filter
aliases_refused = refl

long_id_refused :
    construct unset (some 600) (some "0123456789abc") (collection []) (collection [])
    ≡ raise value_error
unfolding construct
long_id_refused = refl

idle-IsDown : IsDown idle
idle-IsDown = record { varlink_server = refl; ingester = refl; cleanup_task = refl }
