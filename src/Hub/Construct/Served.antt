-- ===== src/Hub/Construct/Served.antt =====
-- hub/server.py: the hub that the constructor returns, and whose prompts its keys stand for.
use terok_clearance.Common.{
  ℕ, String, Bool, true, false, ◌&&◌, ◌||◌, Option, some, List, [], ◌∷◌, ok, raise, ◌≡◌, refl, sym,
  ap, subst, ◌∙◌, ◌==◌, nat_eq, string_eq, if◌then◌else◌, truthy, contains, filter, Returned-ok,
}
use terok_clearance.Wire.Errors.{unknown_container}
use terok_clearance.Hub.State.{Hub}
use terok_clearance.Hub.Mute.{mute_key}
use terok_clearance.Hub.Invariant.{IsFresh}
use terok_clearance.Hub.Construct.{collection, TtlParam, ttl_in_force, seed_all, construct}
use terok_clearance.Hub.Construct.Seeds.{
  IsServed, IsBuilt, unseeded, OnlyMuted, construct-IsBuilt, seed_all-OnlyMuted, seeded, names,
  contains-seed_all, contains-filter, mute_key-unseeded,
}

-- What a hub starts as: nothing heard, and the container and TTL that it was given.
pub record IsConstructed (ttl : TtlParam) (configured : Option ℕ) (c : Option String) (hub : Hub)
    : Type 0 where
  pub fresh : IsFresh hub
  pub container : hub.container ≡ c
  pub verdict_ttl : hub.verdict_ttl ≡ ttl_in_force ttl configured

seed_all-IsConstructed :
    (ttl : TtlParam) (configured : Option ℕ) (c : Option String) (aliases seeds : List String)
    (hub : Hub)
    → hub ≡ seed_all seeds (unseeded ttl configured c aliases)
    → IsConstructed ttl configured c hub
seed_all-IsConstructed ttl configured c aliases seeds hub built =
    let start = unseeded ttl configured c aliases in
    subst (IsConstructed ttl configured c) (sym (built ∙ seed_all-OnlyMuted seeds start)) (record {
      fresh = record { subscribers = refl; live_verdicts = refl; live_verdicts_ts = refl };
      container = refl;
      verdict_ttl = refl;
    })

-- A hub that the constructor returns has heard nothing, keeps the container and the TTL that it was
-- given (the configured one if none was passed), and serves every container or one short id;
-- without a container it takes no aliases but empty ones.
pub constructed :
    (ttl : TtlParam) (configured : Option ℕ) (c : Option String) (aliases seeds : List String)
    {hub : Hub}
    → construct ttl configured c (collection aliases) (collection seeds) ≡ ok hub
    → IsConstructed ttl configured c hub × IsServed c (filter truthy aliases)
constructed ttl configured c aliases seeds {hub} e =
    let b : IsBuilt ttl configured c aliases seeds hub =
      Returned-ok _ _ (construct-IsBuilt ttl configured c aliases seeds) e in
    (seed_all-IsConstructed ttl configured c (filter truthy aliases) seeds hub b.built, b.served)

mute_key-OnlyMuted :
    (hub hub' : Hub) (k : String) → OnlyMuted hub hub' → mute_key hub' k ≡ mute_key hub k
unfolding mute_key
mute_key-OnlyMuted hub hub' k h = ap (λ x. mute_key x k) h

-- A hub that the constructor builds for one container resolves that id and its non-empty aliases
-- to that container, and refuses every other key as unknown.
pub own_keys :
    (ttl : TtlParam) (configured : Option ℕ) (own : String) (aliases seeds : List String)
    (k : String) {hub : Hub}
    → construct ttl configured (some own) (collection aliases) (collection seeds) ≡ ok hub
    → mute_key hub k ≡ (
        if own == k || (truthy k && contains k aliases)
        then ok own
        else raise (unknown_container k own))
own_keys ttl configured own aliases seeds k {hub} e =
    let b : IsBuilt ttl configured (some own) aliases seeds hub =
      Returned-ok _ _ (construct-IsBuilt ttl configured (some own) aliases seeds) e in
    let start = unseeded ttl configured (some own) (filter truthy aliases) in
    ap (λ h. mute_key h k) b.built
    ∙ mute_key-OnlyMuted start (seed_all seeds start) k (seed_all-OnlyMuted seeds start)
    ∙ mute_key-unseeded ttl configured own (filter truthy aliases) k
    ∙ ap (λ t. if own == k || t then ok own else raise (unknown_container k own))
        (contains-filter k truthy aliases)

seeded-OnlyMuted :
    (hub hub' : Hub) (x : String) (ks : List String)
    → OnlyMuted hub hub'
    → seeded hub' x ks ≡ seeded hub x ks
unfolding seeded mute_key
seeded-OnlyMuted hub hub' x ks h = ap (λ y. seeded y x ks) h ∙ seeded-muted hub x hub'.muted ks
  where
    seeded-muted :
        (hub : Hub) (x : String) (m : List String) (ks : List String)
        → seeded (record hub { muted = m }) x ks ≡ seeded hub x ks
    seeded-muted hub x m [] = refl
    seeded-muted hub x m (k ∷ ks) =
        ap (λ b. names (mute_key hub k) x || b) (seeded-muted hub x m ks)

or_false : (b : Bool) → (b || false) ≡ b
or_false true = refl
or_false false = refl

-- The hub starts muted for exactly the containers that its seeds name by a key that it serves; a seed
-- for a key that it does not serve is passed over.
pub seeds_honoured :
    (ttl : TtlParam) (configured : Option ℕ) (c : Option String) (aliases seeds : List String)
    (x : String) {hub : Hub}
    → construct ttl configured c (collection aliases) (collection seeds) ≡ ok hub
    → contains x hub.muted ≡ seeded hub x seeds
unfolding contains
seeds_honoured ttl configured c aliases seeds x {hub} e =
    let b : IsBuilt ttl configured c aliases seeds hub =
      Returned-ok _ _ (construct-IsBuilt ttl configured c aliases seeds) e in
    let start = unseeded ttl configured c (filter truthy aliases) in
    let same : seeded hub x seeds ≡ seeded start x seeds =
      ap (λ h. seeded h x seeds) b.built
      ∙ seeded-OnlyMuted start (seed_all seeds start) x seeds (seed_all-OnlyMuted seeds start) in
    ap (λ h. contains x h.muted) b.built ∙ contains-seed_all seeds start x ∙ or_false _ ∙ sym same
