-- ===== src/Hub/Mute/Control.antt =====
-- hub/server.py: `_set_mute` and `_mutes`, as their callers see them.
use terok_clearance.Common.{
  String, Bool, true, false, ◌||◌, List, [], ◌∷◌, ◌≡◌, refl, ap, arith, string_eq, ◌==◌, beq_self,
  contains, contains-add, contains-discard, Result, ok, raise, if◌then◌else◌,
}
use terok_clearance.Wire.Errors.{ClearanceError}
use terok_clearance.Hub.State.{Hub}
use terok_clearance.Hub.Mute.{
  mute_key, mute_as, set_mute_as, set_mute, insert_sorted, sorted, mutes,
}

contains-mute_as :
    (key : String) (m : Bool) (x : String) (hub : Hub)
    → contains x (mute_as key m hub).muted ≡ (if key == x then m else contains x hub.muted)
unfolding mute_as
contains-mute_as key true x hub = ground (arith, contains-add key x hub.muted)
contains-mute_as key false x hub = ground (arith, contains-discard key x hub.muted)

contains-insert_sorted :
    (x s : String) (ts : List String) → contains x (insert_sorted s ts) ≡ (s == x || contains x ts)
unfolding insert_sorted contains
contains-insert_sorted x s [] = refl
contains-insert_sorted x s (t ∷ ts) = ground (arith, contains-insert_sorted x s ts)

contains-sorted : (x : String) (ts : List String) → contains x (sorted ts) ≡ contains x ts
unfolding sorted contains
contains-sorted x [] = refl
contains-sorted x (t ∷ ts) =
    ground (arith, contains-insert_sorted x t (sorted ts), contains-sorted x ts)

pub contains-mutes : (x : String) (hub : Hub) → contains x (mutes hub) ≡ contains x hub.muted
unfolding mutes
contains-mutes x hub = contains-sorted x hub.muted

pub set_mute-container :
    (c : String) (m : Bool) (hub : Hub) {key : String}
    → mute_key hub c ≡ ok key
    → (set_mute c m hub).0.container ≡ hub.container
unfolding set_mute set_mute_as mute_as
set_mute-container c m hub known = rw known refl

-- What `SetMute` answers and what `Mutes` then lists, for a key that the hub serves.
pub record IsObeyed (key : String) (m : Bool) (hub : Hub) (r : Hub × Result ClearanceError Bool)
    : Type 0 where
  pub reply : r.1 ≡ ok m
  pub listed :
      (x : String) → contains x (mutes r.0) ≡ (if key == x then m else contains x (mutes hub))

-- A mute or unmute of a key that the hub serves is in force when the call returns: the answer is
-- the state that was asked for, and `Mutes` then lists that container exactly if it was muted and
-- every other as before.
pub set_mute-IsObeyed :
    (c : String) (m : Bool) (hub : Hub) {key : String}
    → mute_key hub c ≡ ok key
    → IsObeyed key m hub (set_mute c m hub)
unfolding set_mute set_mute_as
set_mute-IsObeyed c m hub {key} known = rw known (record {
  reply = ap ok (rw (contains-mute_as key m key hub, beq_self key));
  listed = λ x.
      unfold mutes in
      rw (contains-sorted x (mute_as key m hub).muted, contains-sorted x hub.muted)
        (contains-mute_as key m x hub);
})

-- A mute of a key that the hub does not serve is refused with the same error, and nothing changes.
pub set_mute_refused :
    (c : String) (m : Bool) (hub : Hub) {e : ClearanceError}
    → mute_key hub c ≡ raise e
    → set_mute c m hub ≡ (hub, raise e)
unfolding set_mute set_mute_as
set_mute_refused c m hub unknown = rw unknown
