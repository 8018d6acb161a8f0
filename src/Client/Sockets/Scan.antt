-- ===== src/Client/Sockets/Scan.antt =====
-- client/subscriber.py: what a scan makes of the children of `MultiSocketSubscriber`.
use terok_clearance.Common.{
  String, Bool, true, false, not, ◌&&◌, ◌||◌, Option, none, some, List, [], ◌∷◌, Dict, string_eq,
  ◌==◌, get, contains, filter, if◌then◌else◌, Result, ok, raise, ◌≡◌, refl, sym, ap, ◌∙◌, arith,
  inl, inr, Bool-cases, Option-cases, get-put, get-remove, eq_of_beq,
}
use terok_clearance.Client.Connection.{Failure, ClearanceClient, new_client, start}
use terok_clearance.Client.Pending.{new_subscriber}
use terok_clearance.Client.Sockets.{
  Child, SocketAttempt, MultiSocketSubscriber, new_child, keep_or_skip, has, add_socket,
  remove_socket, add_sockets, remove_sockets, keys, reconcile,
}

-- The child that an attempt gives, if it connects.
abbrev pub connected_to :
    Option (List String) → ClearanceClient × Result Failure (Unit {0}) → Option Child
connected_to categories (client, ok done) =
    some (record { subscriber = new_subscriber categories; client = client })
connected_to categories (client, raise e) = none

abbrev pub joined : SocketAttempt → Option (List String) → Option Child
joined attempt categories = connected_to categories (start attempt.first attempt.second new_client)

-- A child that is there stays; without one, the attempt decides.
abbrev pub kept_or : Option Child → Option Child → Option Child
kept_or none fresh = fresh
kept_or (some child) fresh = some child

get-keep_or_skip :
    (p k : String) (m : MultiSocketSubscriber) (r : ClearanceClient × Result Failure (Unit {0}))
    → get p m.subscribers ≡ none
    → get k (keep_or_skip p (new_child m) r m).subscribers
      ≡ (if p == k then connected_to m.enabled_categories r else get k m.subscribers)
get-keep_or_skip p k m (client, ok done) h = get-put p k _ m.subscribers
get-keep_or_skip p k m (client, raise e) h = elim (Bool-cases (p == k)) [
  | inl same ↦ rw (same, ← eq_of_beq p k same) h
  | inr other ↦ rw other refl
]

abbrev later : Bool → Option Child → Option Child → Option Child
later b old fresh = if b then kept_or old fresh else old

joins :
    (b : Bool) (old fresh : Option Child)
    → (b ≡ true → old ≡ none)
    → (if b then fresh else old) ≡ later b old fresh
joins true old fresh h = rw (h refl) refl
joins false old fresh h = refl

stays :
    (b : Bool) (old fresh : Option Child) (child : Child)
    → (b ≡ true → old ≡ some child)
    → old ≡ later b old fresh
stays true old fresh child h = rw (h refl) refl
stays false old fresh child h = refl

twice :
    (here rest : Bool) (old fresh again : Option Child)
    → (here ≡ true → fresh ≡ again)
    → later rest (later here old fresh) again ≡ later (here || rest) old again
twice true true none none again h = refl
twice true true none (some child) again h = h refl
twice true true (some child) fresh again h = refl
twice true false old fresh again h = ap (kept_or old) (h refl)
twice false true old fresh again h = refl
twice false false old fresh again h = refl

absent : (b : Bool) (old : Option Child) → (b ≡ true → old ≡ none) → old ≡ (if b then none else old)
absent true old h = h refl
absent false old h = refl

settle_cases :
    (listed : Bool) (old fresh : Option Child)
    → (if has old && not listed then none else later (listed && not (has old)) old fresh)
      ≡ (if listed then kept_or old fresh else none)
settle_cases true none fresh = refl
settle_cases true (some child) fresh = refl
settle_cases false none fresh = refl
settle_cases false (some child) fresh = refl

keep_or_skip-categories :
    (p : String) (child : Child) (r : ClearanceClient × Result Failure (Unit {0}))
    (m : MultiSocketSubscriber)
    → (keep_or_skip p child r m).enabled_categories ≡ m.enabled_categories
keep_or_skip-categories p child (client, ok done) m = refl
keep_or_skip-categories p child (client, raise e) m = refl

add_socket-categories :
    (a : SocketAttempt) (p : String) (m : MultiSocketSubscriber)
    → (add_socket a p m).enabled_categories ≡ m.enabled_categories
unfolding add_socket
add_socket-categories a p m = elim (Option-cases (get p m.subscribers)) [
  | inl missing ↦
      rw missing (keep_or_skip-categories p (new_child m) (start a.first a.second new_client) m)
  | inr found ↦ rw found.1 refl
]

get-add_socket :
    (a : SocketAttempt) (p k : String) (m : MultiSocketSubscriber)
    → get k (add_socket a p m).subscribers ≡ (
        if p == k
        then kept_or (get k m.subscribers) (joined a m.enabled_categories)
        else get k m.subscribers)
unfolding add_socket
get-add_socket a p k m = elim (Option-cases (get p m.subscribers)) [
  | inl missing ↦ rw missing (
      get-keep_or_skip p k m (start a.first a.second new_client) missing
      ∙ joins (p == k) (get k m.subscribers) _
          (λ same. ap (λ j. get j m.subscribers) (sym (eq_of_beq p k same)) ∙ missing))
  | inr found ↦ rw found.1 (
      stays (p == k) (get k m.subscribers) _ found.0
        (λ same. ap (λ j. get j m.subscribers) (sym (eq_of_beq p k same)) ∙ found.1))
]

get-add_sockets :
    (attempts : String → SocketAttempt) (paths : List String) (k : String)
    (m : MultiSocketSubscriber)
    → get k (add_sockets attempts paths m).subscribers ≡ (
        if contains k paths
        then kept_or (get k m.subscribers) (joined (attempts k) m.enabled_categories)
        else get k m.subscribers)
unfolding add_sockets contains
get-add_sockets attempts [] k m = refl
get-add_sockets attempts (p ∷ paths) k m =
    get-add_sockets attempts paths k (add_socket (attempts p) p m)
    ∙ ap
        (λ categories.
          later (contains k paths) (get k (add_socket (attempts p) p m).subscribers)
            (joined (attempts k) categories))
        (add_socket-categories (attempts p) p m)
    ∙ ap (λ o. later (contains k paths) o (joined (attempts k) m.enabled_categories))
        (get-add_socket (attempts p) p k m)
    ∙ twice (p == k) (contains k paths) (get k m.subscribers) _ _
        (λ same. ap (λ j. joined (attempts j) m.enabled_categories) (eq_of_beq p k same))

get-remove_socket :
    (p k : String) (m : MultiSocketSubscriber)
    → get k (remove_socket p m).subscribers ≡ (if p == k then none else get k m.subscribers)
unfolding remove_socket
get-remove_socket p k m = elim (Option-cases (get p m.subscribers)) [
  | inl missing ↦ rw missing (
      absent (p == k) (get k m.subscribers)
        (λ same. ap (λ j. get j m.subscribers) (sym (eq_of_beq p k same)) ∙ missing))
  | inr found ↦ rw found.1 (get-remove p k m.subscribers)
]

get-remove_sockets :
    (paths : List String) (k : String) (m : MultiSocketSubscriber)
    → get k (remove_sockets paths m).subscribers
      ≡ (if contains k paths then none else get k m.subscribers)
unfolding remove_sockets contains
get-remove_sockets [] k m = refl
get-remove_sockets (p ∷ paths) k m =
    ground (arith, get-remove_sockets paths k (remove_socket p m), get-remove_socket p k m)

contains-filter :
    (f : String → Bool) (k : String) (xs : List String)
    → contains k (filter f xs) ≡ (contains k xs && f k)
unfolding contains filter
contains-filter f k [] = refl
contains-filter f k (x ∷ xs) = elim (Bool-cases (x == k)) [
  | inl same ↦ ground (arith, contains-filter f k xs, ap f (eq_of_beq x k same))
  | inr other ↦ ground (arith, contains-filter f k xs)
]

contains-keys : (k : String) (d : Dict String Child) → contains k (keys d) ≡ has (get k d)
unfolding contains get
contains-keys k [] = refl
contains-keys k ((j, child) ∷ d) = ground (arith, contains-keys k d)

-- After a scan, a path has a child exactly when the glob matches it and it had a child before, which
-- is then kept, or its new child connected: children of paths that are gone are gone, and one that
-- fails to connect keeps no other out.
pub get-reconcile :
    (attempts : String → SocketAttempt) (current : List String) (k : String)
    (m : MultiSocketSubscriber)
    → get k (reconcile attempts current m).subscribers ≡ (
        if contains k current
        then kept_or (get k m.subscribers) (joined (attempts k) m.enabled_categories)
        else none)
unfolding reconcile
get-reconcile attempts current k m =
    get-remove_sockets to_remove k (add_sockets attempts to_add m)
    ∙ ap (λ o. if contains k to_remove then none else o) (get-add_sockets attempts to_add k m)
    ∙ ap
        (λ b.
          if b
          then none
          else later (contains k to_add) (get k m.subscribers)
              (joined (attempts k) m.enabled_categories))
        (contains-filter (λ p. not (contains p current)) k existing
          ∙ ap (λ b. b && not (contains k current)) (contains-keys k m.subscribers))
    ∙ ap
        (λ b.
          if has (get k m.subscribers) && not (contains k current)
          then none
          else later b (get k m.subscribers) (joined (attempts k) m.enabled_categories))
        (contains-filter (λ p. not (contains p existing)) k current
          ∙ ap (λ b. contains k current && not b) (contains-keys k m.subscribers))
    ∙ settle_cases (contains k current) (get k m.subscribers) _
  where
    existing : List String
    existing = keys m.subscribers

    to_add : List String
    to_add = filter (λ path. not (contains path existing)) current

    to_remove : List String
    to_remove = filter (λ path. not (contains path current)) existing
