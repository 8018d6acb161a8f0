-- ===== src/Client/Sockets/Counts.antt =====
-- client/subscriber.py: what a scan does to the count of the children of `MultiSocketSubscriber`.
use terok_clearance.Common.{
  suc, ◌+◌, String, not, Option, none, some, List, [], ◌∷◌, Dict, string_eq, ◌==◌, get, put, remove,
  contains, filter, if◌then◌else◌, Result, ok, raise, ◌≡◌, refl, sym, ap, ◌∙◌, arith, inl, inr,
  Bool-cases, length, All, IsDict, put-IsDict, remove-IsDict, eq_of_beq,
}
use terok_clearance.Client.Connection.{
  Failure, ClearanceClient, new_client, start, stop, close_transports,
}
use terok_clearance.Client.Sockets.{
  Child, SocketAttempt, MultiSocketSubscriber, new_child, keep_or_skip, has, add_socket, release,
  remove_socket, add_sockets, remove_sockets, keys, reconcile, stop_child,
}

-- A child without a transport.
abbrev pub IsShut : Child → Type 0
IsShut c = (c.client.sub_transport ≡ none) × (c.client.rpc_transport ≡ none)

-- Each path has one child; every child that was made is in the map or was let go, and those that
-- were let go have no transport.
pub record IsAccounted (m : MultiSocketSubscriber) : Type 0 where
  pub dict : IsDict m.subscribers
  pub count : m.made ≡ length m.subscribers + length m.released
  pub shut : All IsShut m.released

pub stop_child-IsShut : (c : Child) → IsShut (stop_child c)
unfolding stop_child stop close_transports
stop_child-IsShut c = (refl, refl)

pub length-put_new :
    (k : String) (v : Child) (d : Dict String Child)
    → get k d ≡ none
    → length (put k v d) ≡ suc (length d)
unfolding put get
length-put_new k v [] h = refl
length-put_new k v ((j, w) ∷ d) h = elim (Bool-cases (j == k)) [
  | inl same ↦ absurd (ground arith)
  | inr other ↦ rw other (ap suc (length-put_new k v d (rw other at h)))
]

pub length-remove_absent :
    (k : String) (d : Dict String Child) → get k d ≡ none → length (remove k d) ≡ length d
unfolding remove get
length-remove_absent k [] h = refl
length-remove_absent k ((j, w) ∷ d) h = elim (Bool-cases (j == k)) [
  | inl same ↦ absurd (ground arith)
  | inr other ↦ rw other (ap suc (length-remove_absent k d (rw other at h)))
]

pub length-remove :
    (k : String) (v : Child) (d : Dict String Child)
    → IsDict d
    → get k d ≡ some v
    → suc (length (remove k d)) ≡ length d
unfolding remove get
length-remove k v [] u h = absurd (ground arith)
length-remove k v ((j, w) ∷ d) u h = elim (Bool-cases (j == k)) [
  | inl same ↦
      rw same
        (ap suc (length-remove_absent k d (ap (λ i. get i d) (sym (eq_of_beq j k same)) ∙ u.0)))
  | inr other ↦ rw other (ap suc (length-remove k v d u.1 (rw other at h)))
]

pub keep_or_skip-IsAccounted :
    (p : String) (child : Child) (r : ClearanceClient × Result Failure (Unit {0}))
    (m : MultiSocketSubscriber)
    → get p m.subscribers ≡ none
    → IsAccounted m
    → IsAccounted (keep_or_skip p child r m)
keep_or_skip-IsAccounted p child (client, ok done) m h v =
    let kept = record child { client = client } in
    record {
      dict = put-IsDict p kept m.subscribers v.dict;
      count = omega (arith, v.count, length-put_new p kept m.subscribers h);
      shut = v.shut;
    }
keep_or_skip-IsAccounted p child (client, raise e) m h v = record {
  dict = v.dict;
  count = omega (arith, v.count);
  shut = (stop_child-IsShut (record child { client = client }), v.shut);
}

pub add_socket-IsAccounted :
    (a : SocketAttempt) (p : String) (m : MultiSocketSubscriber)
    → IsAccounted m
    → IsAccounted (add_socket a p m)
unfolding add_socket
add_socket-IsAccounted a p m v = go (get p m.subscribers) refl
  where
    added : MultiSocketSubscriber
    added = keep_or_skip p (new_child m) (start a.first a.second new_client) m

    go : (o : Option Child) → get p m.subscribers ≡ o → IsAccounted (if has o then m else added)
    go none missing =
        keep_or_skip-IsAccounted p (new_child m) (start a.first a.second new_client) m missing v
    go (some child) found = v

pub remove_socket-IsAccounted :
    (p : String) (m : MultiSocketSubscriber) → IsAccounted m → IsAccounted (remove_socket p m)
unfolding remove_socket
remove_socket-IsAccounted p m v = go (get p m.subscribers) refl
  where
    go : (o : Option Child) → get p m.subscribers ≡ o → IsAccounted (release p o m)
    go none missing = v
    go (some child) found = record {
      dict = remove-IsDict p m.subscribers v.dict;
      count = omega (arith, v.count, length-remove p child m.subscribers v.dict found);
      shut = (stop_child-IsShut child, v.shut);
    }

pub add_sockets-IsAccounted :
    (attempts : String → SocketAttempt) (paths : List String) (m : MultiSocketSubscriber)
    → IsAccounted m
    → IsAccounted (add_sockets attempts paths m)
unfolding add_sockets
add_sockets-IsAccounted attempts [] m v = v
add_sockets-IsAccounted attempts (p ∷ paths) m v =
    add_sockets-IsAccounted attempts paths (add_socket (attempts p) p m)
      (add_socket-IsAccounted (attempts p) p m v)

pub remove_sockets-IsAccounted :
    (paths : List String) (m : MultiSocketSubscriber)
    → IsAccounted m
    → IsAccounted (remove_sockets paths m)
unfolding remove_sockets
remove_sockets-IsAccounted [] m v = v
remove_sockets-IsAccounted (p ∷ paths) m v =
    remove_sockets-IsAccounted paths (remove_socket p m) (remove_socket-IsAccounted p m v)

pub reconcile-IsAccounted :
    (attempts : String → SocketAttempt) (current : List String) (m : MultiSocketSubscriber)
    → IsAccounted m
    → IsAccounted (reconcile attempts current m)
unfolding reconcile
reconcile-IsAccounted attempts current m v =
    remove_sockets-IsAccounted (filter (λ path. not (contains path current)) (keys m.subscribers))
      (add_sockets attempts (filter (λ path. not (contains path (keys m.subscribers))) current) m)
      (add_sockets-IsAccounted attempts
        (filter (λ path. not (contains path (keys m.subscribers))) current) m v)
