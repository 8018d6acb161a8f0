-- ===== src/Client/Sockets/Joining.antt =====
-- client/subscriber.py: a socket over the rounds of `_rescan_loop`.
use terok_clearance.Common.{
  String, Bool, true, false, not, Option, none, some, List, [], ◌∷◌, ◌++◌, string_eq, get, contains,
  filter, if◌then◌else◌, Result, ok, raise, ◌≡◌, refl, sym, ap, ap₂, ◌∙◌, subst, All,
}
use terok_clearance.Client.Connection.{Failure, ClearanceClient, new_client, start}
use terok_clearance.Client.Sockets.{
  Child, SocketAttempt, MultiSocketSubscriber, new_child, keep_or_skip, has, add_socket, release,
  remove_socket, add_sockets, remove_sockets, keys, reconcile, rescan,
}
use terok_clearance.Client.Sockets.Scan.{joined, kept_or, get-reconcile}

-- What a scan leaves alone.
record SameLoop (m n : MultiSocketSubscriber) : Type 0 where
  task : n.rescan_task ≡ m.rescan_task
  stopping : n.stopping ≡ m.stopping
  categories : n.enabled_categories ≡ m.enabled_categories

SameLoop-refl : (m : MultiSocketSubscriber) → SameLoop m m
SameLoop-refl m = record { task = refl; stopping = refl; categories = refl }

SameLoop-trans : {m n o : MultiSocketSubscriber} → SameLoop m n → SameLoop n o → SameLoop m o
SameLoop-trans s t = record {
  task = t.task ∙ s.task;
  stopping = t.stopping ∙ s.stopping;
  categories = t.categories ∙ s.categories;
}

keep_or_skip-SameLoop :
    (p : String) (child : Child) (r : ClearanceClient × Result Failure (Unit {0}))
    (m : MultiSocketSubscriber)
    → SameLoop m (keep_or_skip p child r m)
keep_or_skip-SameLoop p child (client, ok done) m = record {
  task = refl;
  stopping = refl;
  categories = refl;
}
keep_or_skip-SameLoop p child (client, raise e) m = record {
  task = refl;
  stopping = refl;
  categories = refl;
}

add_socket-SameLoop :
    (a : SocketAttempt) (p : String) (m : MultiSocketSubscriber) → SameLoop m (add_socket a p m)
unfolding add_socket
add_socket-SameLoop a p m = go (has (get p m.subscribers))
  where
    added : MultiSocketSubscriber
    added = keep_or_skip p (new_child m) (start a.first a.second new_client) m

    go : (b : Bool) → SameLoop m (if b then m else added)
    go true = SameLoop-refl m
    go false = keep_or_skip-SameLoop p (new_child m) (start a.first a.second new_client) m

remove_socket-SameLoop : (p : String) (m : MultiSocketSubscriber) → SameLoop m (remove_socket p m)
unfolding remove_socket
remove_socket-SameLoop p m = go (get p m.subscribers)
  where
    go : (o : Option Child) → SameLoop m (release p o m)
    go none = SameLoop-refl m
    go (some child) = record { task = refl; stopping = refl; categories = refl }

add_sockets-SameLoop :
    (attempts : String → SocketAttempt) (paths : List String) (m : MultiSocketSubscriber)
    → SameLoop m (add_sockets attempts paths m)
unfolding add_sockets
add_sockets-SameLoop attempts [] m = SameLoop-refl m
add_sockets-SameLoop attempts (p ∷ paths) m =
    SameLoop-trans (add_socket-SameLoop (attempts p) p m)
      (add_sockets-SameLoop attempts paths (add_socket (attempts p) p m))

remove_sockets-SameLoop :
    (paths : List String) (m : MultiSocketSubscriber) → SameLoop m (remove_sockets paths m)
unfolding remove_sockets
remove_sockets-SameLoop [] m = SameLoop-refl m
remove_sockets-SameLoop (p ∷ paths) m =
    SameLoop-trans (remove_socket-SameLoop p m) (remove_sockets-SameLoop paths (remove_socket p m))

reconcile-SameLoop :
    (attempts : String → SocketAttempt) (current : List String) (m : MultiSocketSubscriber)
    → SameLoop m (reconcile attempts current m)
unfolding reconcile
reconcile-SameLoop attempts current m = SameLoop-trans (add_sockets-SameLoop attempts to_add m) (
    remove_sockets-SameLoop (filter (λ path. not (contains path current)) (keys m.subscribers))
      (add_sockets attempts to_add m))
  where
    to_add : List String
    to_add = filter (λ path. not (contains path (keys m.subscribers))) current

-- What a round of the loop meets.
pub record ScanRound : Type 0 where
  pub attempts : String → SocketAttempt
  pub current : List String

unfoldable pub rescan_all : List ScanRound → MultiSocketSubscriber → MultiSocketSubscriber
unfolding rescan
rescan_all [] m = m
rescan_all (r ∷ rounds) m = rescan_all rounds (rescan r.attempts r.current m)

abbrev pub IsLooping : MultiSocketSubscriber → Type 0
IsLooping m = (m.rescan_task ≡ true) × (m.stopping ≡ false)

rescan-reconcile :
    (r : ScanRound) (m : MultiSocketSubscriber)
    → IsLooping m
    → rescan r.attempts r.current m ≡ reconcile r.attempts r.current m
unfolding rescan
rescan-reconcile r m (live, going) =
    ap₂
      (λ t s.
        if not t
        then m
        else if s
        then record m { rescan_task = false }
        else reconcile r.attempts r.current m)
      live going

-- The state of the loop after a round.
module _ (r : ScanRound) (m : MultiSocketSubscriber) (l : IsLooping m) where
  rescan-SameLoop : SameLoop m (rescan r.attempts r.current m)
  rescan-SameLoop =
      subst (SameLoop m) (sym (rescan-reconcile r m l)) (reconcile-SameLoop r.attempts r.current m)

  rescan-IsLooping : IsLooping (rescan r.attempts r.current m)
  rescan-IsLooping = (rescan-SameLoop.task ∙ l.0, rescan-SameLoop.stopping ∙ l.1)

  get-rescan :
      (k : String)
      → contains k r.current ≡ true
      → get k (rescan r.attempts r.current m).subscribers
        ≡ kept_or (get k m.subscribers) (joined (r.attempts k) m.enabled_categories)
  get-rescan k listed =
      ap (λ (n : MultiSocketSubscriber). get k n.subscribers) (rescan-reconcile r m l)
      ∙ get-reconcile r.attempts r.current k m
      ∙ ap
          (λ b.
            if b
            then kept_or (get k m.subscribers) (joined (r.attempts k) m.enabled_categories)
            else none)
          listed

abbrev Lists : String → ScanRound → Type 0
Lists k r = contains k r.current ≡ true

-- A child stays while the glob matches its path.
get-rescan_all :
    (k : String) (rounds : List ScanRound) (m : MultiSocketSubscriber) (child : Child)
    → IsLooping m
    → All (Lists k) rounds
    → get k m.subscribers ≡ some child
    → get k (rescan_all rounds m).subscribers ≡ some child
unfolding rescan_all
get-rescan_all k [] m child l listed there = there
get-rescan_all k (r ∷ rounds) m child l listed there =
    get-rescan_all k rounds (rescan r.attempts r.current m) child (rescan-IsLooping r m l) listed.1
      (get-rescan r m l k listed.0
        ∙ ap (λ o. kept_or o (joined (r.attempts k) m.enabled_categories)) there)

-- While the loop runs, a socket that a new client can connect to in one of the rounds, and that the glob
-- matches in that round and in all that follow, has a child after them, whether or not it had one
-- before, failed before, or other sockets fail.
pub rescan_all-joined :
    (k : String) (before : List ScanRound) (r : ScanRound) (after : List ScanRound)
    (m : MultiSocketSubscriber) (child : Child)
    → IsLooping m
    → joined (r.attempts k) m.enabled_categories ≡ some child
    → All (λ (s : ScanRound). contains k s.current ≡ true) (r ∷ after)
    → has (get k (rescan_all (before ++ (r ∷ after)) m).subscribers) ≡ true
unfolding rescan_all
rescan_all-joined k [] r after m child l connects listed = go (get k m.subscribers) refl
  where
    go :
        (o : Option Child)
        → get k m.subscribers ≡ o
        → has (get k (rescan_all after (rescan r.attempts r.current m)).subscribers) ≡ true
    go none missing = ap has (
        get-rescan_all k after (rescan r.attempts r.current m) child (rescan-IsLooping r m l)
          listed.1
          (get-rescan r m l k listed.0
            ∙ ap (λ o. kept_or o (joined (r.attempts k) m.enabled_categories)) missing
            ∙ connects))
    go (some old) there = ap has (
        get-rescan_all k after (rescan r.attempts r.current m) old (rescan-IsLooping r m l) listed.1
          (get-rescan r m l k listed.0
            ∙ ap (λ o. kept_or o (joined (r.attempts k) m.enabled_categories)) there))
rescan_all-joined k (b ∷ before) r after m child l connects listed =
    rescan_all-joined k before r after (rescan b.attempts b.current m) child
      (rescan-IsLooping b m l)
      (ap (λ categories. joined (r.attempts k) categories) (rescan-SameLoop b m l).categories
        ∙ connects)
      listed
