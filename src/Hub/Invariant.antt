-- ===== src/Hub/Invariant.antt =====
-- hub/server.py: the validity of a hub. The two maps of pending verdicts are dicts over the same
-- request ids, and no queue is longer than its bound.
use terok_clearance.Common.{
  ℕ, ◌≤◌, String, Bool, true, false, Option, none, some, List, [], Dict, ◌≡◌, refl, inl, inr,
  Option-cases, arith, string_eq, get, put, remove, remove_all, length, All, IsDict, get-put,
  get-remove, get-remove_all,
}
use terok_clearance.Hub.State.{Hub, Subscriber, Binding, subscriber_queue_depth}

abbrev pub is_some {ℓ} : {A : Type ℓ} → Option A → Bool
is_some none = false
is_some (some a) = true

abbrev pub SameKeys : Dict String Binding → Dict String ℕ → Type 0
SameKeys live times = (k : String) → is_some (get k live) ≡ is_some (get k times)

abbrev pub IsBounded : Subscriber → Type 0
IsBounded s = length s.queue ≤ subscriber_queue_depth

pub record IsValid (hub : Hub) : Type 0 where
  pub live_dict : IsDict hub.live_verdicts
  pub ts_dict : IsDict hub.live_verdicts_ts
  pub same_keys : SameKeys hub.live_verdicts hub.live_verdicts_ts
  pub bounded : All IsBounded hub.subscribers

module _ (live : Dict String Binding) (times : Dict String ℕ) (same : SameKeys live times) where
  pub SameKeys-put : (k : String) (b : Binding) (t : ℕ) → SameKeys (put k b live) (put k t times)
  SameKeys-put k b t j = ground (arith, get-put k j b live, get-put k j t times, same j)

  pub SameKeys-remove : (k : String) → SameKeys (remove k live) (remove k times)
  SameKeys-remove k j = ground (arith, get-remove k j live, get-remove k j times, same j)

  pub SameKeys-remove_all : (ks : List String) → SameKeys (remove_all ks live) (remove_all ks times)
  SameKeys-remove_all ks j =
      ground (arith, get-remove_all ks j live, get-remove_all ks j times, same j)

module _ {hub : Hub} (h : IsValid hub) where
  -- A bound request id has a time.
  pub timed_of_bound :
      (k : String) (b : Binding)
      → get k hub.live_verdicts ≡ some b
      → (t : ℕ) × (get k hub.live_verdicts_ts ≡ some t)
  timed_of_bound k b bound = elim (Option-cases (get k hub.live_verdicts_ts)) [
    | inl missing ↦ absurd (ground (arith, h.same_keys k))
    | inr found ↦ found
  ]

-- A hub that has heard nothing.
pub record IsFresh (hub : Hub) : Type 0 where
  pub subscribers : hub.subscribers ≡ []
  pub live_verdicts : hub.live_verdicts ≡ []
  pub live_verdicts_ts : hub.live_verdicts_ts ≡ []

pub fresh-IsValid : (hub : Hub) → IsFresh hub → IsValid hub
unfolding get
fresh-IsValid hub h = record {
  live_dict = rw h.live_verdicts tt;
  ts_dict = rw h.live_verdicts_ts tt;
  same_keys = rw (h.live_verdicts, h.live_verdicts_ts) (λ k. refl);
  bounded = rw h.subscribers tt;
}
