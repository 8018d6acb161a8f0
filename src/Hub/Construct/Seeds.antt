-- ===== src/Hub/Construct/Seeds.antt =====
-- hub/server.py: the mute keys and the seeds of a hub that the constructor builds.
use terok_clearance.Common.{
  ℕ, String, Bool, true, false, ◌&&◌, ◌||◌, Option, none, some, List, [], ◌∷◌, Dict, Result, ok,
  raise, ◌>>=◌, ◌≡◌, refl, sym, ap, subst, ◌∙◌, arith, ◌==◌, nat_eq, string_eq, inl, inr,
  Bool-cases, if◌then◌else◌, get, put, get-put, truthy, contains, contains-add, filter, code,
  and_true, eq_of_beq, beq_self, text_length, ◌≤◌, Returned,
}
use terok_clearance.Wire.Errors.{ClearanceError, unknown_container}
use terok_clearance.Wire.Sanitize.Output.{IsWire, IsPrintable}
use terok_clearance.Hub.State.{Hub}
use terok_clearance.Hub.Mute.{mute_key, seed_mute, seed_mute_as, known_key}
use terok_clearance.Hub.Construct.{
  collection, TtlParam, is_hex, all_hex, is_short_id, keys_of, from_keys, mute_keys_for,
  check_container, ttl_in_force, blank, seed_all, construct,
}

all_hex-IsPrintable : (s : String) → all_hex s ≡ true → IsPrintable s
unfolding all_hex
all_hex-IsPrintable String.[] h = tt
all_hex-IsPrintable (String.◌∷◌ c s) h =
    let (hex, rest) = and_true (is_hex (code c)) (all_hex s) h in
    let (lo, hi) = hex_range (code c) hex in (lo, hi, all_hex-IsPrintable s rest)
  where
    hex_range : (n : ℕ) → is_hex n ≡ true → (0x20 ≤ n) × (n ≤ 0x7e)
    hex_range n hex = ground arith

-- A short id is a text of the wire.
pub short_id-IsWire : (s : String) → is_short_id s ≡ true → IsWire 256 s
unfolding is_short_id
short_id-IsWire s h =
    let (twelve, hex) = and_true (text_length s == 12) (all_hex s) h in
    record {
      printable = all_hex-IsPrintable s hex;
      short = omega (arith, eq_of_beq (text_length s) 12 twelve);
    }

-- A seed changes nothing but the mute set.
abbrev pub OnlyMuted : Hub → Hub → Type 0
OnlyMuted hub hub' = hub' ≡ record hub { muted = hub'.muted }

seed_mute_as-OnlyMuted :
    (r : Result ClearanceError String) (hub : Hub) → OnlyMuted hub (seed_mute_as r hub)
unfolding seed_mute_as
seed_mute_as-OnlyMuted (raise e) hub = refl
seed_mute_as-OnlyMuted (ok key) hub = refl

pub seed_all-OnlyMuted : (ks : List String) (hub : Hub) → OnlyMuted hub (seed_all ks hub)
unfolding seed_all seed_mute
seed_all-OnlyMuted [] hub = refl
seed_all-OnlyMuted (k ∷ ks) hub =
    seed_all-OnlyMuted ks (seed_mute k hub)
    ∙ ap (λ (h : Hub). record h { muted = (seed_all ks (seed_mute k hub)).muted })
        (seed_mute_as-OnlyMuted (mute_key hub k) hub)

get-from_keys :
    (k v : String) (ks : List String) (d : Dict String String)
    → get k (from_keys ks v d) ≡ (if contains k ks then some v else get k d)
unfolding from_keys contains
get-from_keys k v [] d = refl
get-from_keys k v (x ∷ ks) d = ground (arith, get-from_keys k v ks (put x v d), get-put x k v d)

pub contains-filter :
    (k : String) (f : String → Bool) (ks : List String)
    → contains k (filter f ks) ≡ (f k && contains k ks)
unfolding contains filter
contains-filter k f [] = ground arith
contains-filter k f (x ∷ ks) = elim (Bool-cases (x == k)) [
  | inl e ↦
      subst (λ y. contains k (filter f (y ∷ ks)) ≡ (f k && contains k (y ∷ ks)))
        (sym (eq_of_beq x k e)) (ground (arith, contains-filter k f ks, beq_self k))
  | inr e ↦ ground (arith, contains-filter k f ks, e)
]

-- The container that a hub can serve: every one, or one short id.
abbrev pub IsServed : Option String → List String → Type 0
IsServed none aliases = aliases ≡ []
IsServed (some own) aliases = is_short_id own ≡ true

-- The hub before the seeds.
abbrev pub unseeded : TtlParam → Option ℕ → Option String → List String → Hub
unseeded ttl configured container aliases =
    blank (ttl_in_force ttl configured) container (mute_keys_for container aliases)

-- What the constructor of a hub leaves behind.
pub record IsBuilt (ttl : TtlParam) (configured : Option ℕ) (c : Option String)
    (aliases seeds : List String) (hub : Hub) : Type 0 where
  pub served : IsServed c (filter truthy aliases)
  pub built : hub ≡ seed_all seeds (unseeded ttl configured c (filter truthy aliases))

pub construct-IsBuilt :
    (ttl : TtlParam) (configured : Option ℕ) (c : Option String) (aliases seeds : List String)
    → Returned
        (IsBuilt ttl configured c aliases seeds)
        (construct ttl configured c (collection aliases) (collection seeds))
unfolding construct keys_of check_container
construct-IsBuilt ttl configured none aliases seeds = go (filter truthy aliases) refl
  where
    go :
        (given : List String)
        → filter truthy aliases ≡ given
        → Returned (IsBuilt ttl configured none aliases seeds) (
            check_container none given >>= λ own.
            ok (seed_all seeds (unseeded ttl configured own given)))
    go [] e = record { served = e; built = refl }
    go (a ∷ given) e = tt
construct-IsBuilt ttl configured (some own) aliases seeds = elim (Bool-cases (is_short_id own)) [
  | inl e ↦ rw e (record { served = e; built = refl })
  | inr e ↦ rw e tt
]

-- The seed's key is this one.
unfoldable pub names : Result ClearanceError String → String → Bool
names (ok key) x = key == x
names (raise e) x = false

-- One of the seeds is accepted under this key.
unfoldable pub seeded : Hub → String → List String → Bool
unfolding names
seeded hub x [] = false
seeded hub x (k ∷ ks) = names (mute_key hub k) x || seeded hub x ks

mute_key-seed_mute_as :
    (r : Result ClearanceError String) (hub : Hub) (k : String)
    → mute_key (seed_mute_as r hub) k ≡ mute_key hub k
unfolding mute_key seed_mute_as
mute_key-seed_mute_as (ok key) hub k = refl
mute_key-seed_mute_as (raise e) hub k = refl

pub seeded-seed_mute :
    (hub : Hub) (k x : String) (ks : List String) → seeded (seed_mute k hub) x ks ≡ seeded hub x ks
unfolding seeded seed_mute
seeded-seed_mute hub k x [] = refl
seeded-seed_mute hub k x (y ∷ ks) =
    rw (mute_key-seed_mute_as (mute_key hub k) hub y)
      (ap (λ b. names (mute_key hub y) x || b) (seeded-seed_mute hub k x ks))

contains-seed_mute_as :
    (r : Result ClearanceError String) (hub : Hub) (x : String)
    → contains x (seed_mute_as r hub).muted ≡ (names r x || contains x hub.muted)
unfolding seed_mute_as names
contains-seed_mute_as (ok key) hub x = contains-add key x hub.muted
contains-seed_mute_as (raise e) hub x = refl

pub contains-seed_all :
    (ks : List String) (hub : Hub) (x : String)
    → contains x (seed_all ks hub).muted ≡ (seeded hub x ks || contains x hub.muted)
unfolding seed_all seeded seed_mute
contains-seed_all [] hub x = refl
contains-seed_all (k ∷ ks) hub x = ground (
  arith,
  contains-seed_all ks (seed_mute k hub) x,
  contains-seed_mute_as (mute_key hub k) hub x,
  seeded-seed_mute hub k x ks,
)

known_key-cases :
    (k own : String) (same alias : Bool)
    → known_key k own (if same then some own else if alias then some own else get k [])
      ≡ (if same || alias then ok own else raise (unknown_container k own))
unfolding get
known_key-cases k own true alias = refl
known_key-cases k own false true = refl
known_key-cases k own false false = refl

pub mute_key-unseeded :
    (ttl : TtlParam) (configured : Option ℕ) (own : String) (aliases : List String) (k : String)
    → mute_key (unseeded ttl configured (some own) aliases) k
      ≡ (if own == k || contains k aliases then ok own else raise (unknown_container k own))
unfolding mute_key mute_keys_for
mute_key-unseeded ttl configured own aliases k =
    rw (get-put own k own (from_keys aliases own []), get-from_keys k own aliases [])
      (known_key-cases k own (own == k) (contains k aliases))
