-- ===== src/Client/Sockets/Accounted.antt =====
-- client/subscriber.py: every child that `MultiSocketSubscriber` makes, over any order of starts,
-- scans and stops.
use terok_clearance.Common.{
  suc, String, Bool, true, false, not, Option, List, [], ◌∷◌, map, Dict, string_eq, if◌then◌else◌,
  ok, ◌≡◌, refl, ap, arith, inl, inr, Bool-cases, length, length-append, All, All-append,
  Returned-ok,
}
use terok_clearance.Client.Sockets.{
  Child, SocketAttempt, MultiSocketSubscriber, reconcile, stop_child, start_multi, rescan,
  stop_multi, new_multi, is_positive,
}
use terok_clearance.Common.Int.{ℤ}
use terok_clearance.Client.Sockets.Counts.{
  IsShut, IsAccounted, stop_child-IsShut, reconcile-IsAccounted,
}

-- One of the operations that change the children, with what it meets.
pub data Operation : Type 0 where
  begin : (String → SocketAttempt) → List String → Operation
  scan : (String → SocketAttempt) → List String → Operation
  finish : Operation

unfoldable pub operate : Operation → MultiSocketSubscriber → MultiSocketSubscriber
unfolding start_multi rescan stop_multi
operate (begin attempts current) m = start_multi attempts current m
operate (scan attempts current) m = rescan attempts current m
operate finish m = stop_multi m

unfoldable pub operate_all : List Operation → MultiSocketSubscriber → MultiSocketSubscriber
unfolding operate
operate_all [] m = m
operate_all (o ∷ os) m = operate_all os (operate o m)

length-stopped : (d : Dict String Child) → length (map (λ kv. stop_child kv.1) d) ≡ length d
length-stopped [] = refl
length-stopped (kv ∷ d) = ap suc (length-stopped d)

stopped-IsShut : (d : Dict String Child) → All IsShut (map (λ kv. stop_child kv.1) d)
stopped-IsShut [] = tt
stopped-IsShut (kv ∷ d) = (stop_child-IsShut kv.1, stopped-IsShut d)

if-IsAccounted :
    (b : Bool) (m n : MultiSocketSubscriber)
    → IsAccounted m
    → IsAccounted n
    → IsAccounted (if b then m else n)
if-IsAccounted true m n v w = v
if-IsAccounted false m n v w = w

operate-IsAccounted :
    (o : Operation) (m : MultiSocketSubscriber) → IsAccounted m → IsAccounted (operate o m)
unfolding operate start_multi rescan stop_multi
operate-IsAccounted (begin attempts current) m v =
    if-IsAccounted m.rescan_task m _ v
      record { dict = scanned.dict; count = scanned.count; shut = scanned.shut }
  where
    scanned : IsAccounted (reconcile attempts current (record m { stopping = false }))
    scanned =
        reconcile-IsAccounted attempts current (record m { stopping = false })
          record { dict = v.dict; count = v.count; shut = v.shut }
operate-IsAccounted (scan attempts current) m v = if-IsAccounted (not m.rescan_task) m _ v (
    if-IsAccounted m.stopping _ _ (record { dict = v.dict; count = v.count; shut = v.shut })
      (reconcile-IsAccounted attempts current m v))
operate-IsAccounted finish m v = record {
  dict = tt;
  count = omega (
    arith,
    v.count,
    length-stopped m.subscribers,
    length-append (map (λ kv. stop_child kv.1) m.subscribers) m.released,
  );
  shut = All-append IsShut _ m.released (stopped-IsShut m.subscribers) v.shut;
}

operates-IsAccounted :
    (os : List Operation) (m : MultiSocketSubscriber)
    → IsAccounted m
    → IsAccounted (operate_all os m)
unfolding operate_all
operates-IsAccounted [] m v = v
operates-IsAccounted (o ∷ os) m v =
    operates-IsAccounted os (operate o m) (operate-IsAccounted o m v)

-- A stop lets go of every child that was ever made.
stop_multi-released :
    (m : MultiSocketSubscriber)
    → IsAccounted m
    → (length (stop_multi m).released ≡ m.made) × All IsShut (stop_multi m).released
unfolding stop_multi operate
stop_multi-released m v =
    let stopped = operate-IsAccounted finish m v in (omega (arith, stopped.count), stopped.shut)

new_multi-IsAccounted :
    (d : String) (g : Option String) (c : Option (List String)) (i : ℤ) {m : MultiSocketSubscriber}
    → new_multi d g c i ≡ ok m
    → IsAccounted m
unfolding new_multi
new_multi-IsAccounted d g c i h =
    Returned-ok IsAccounted (new_multi d g c i)
      (elim (Bool-cases (is_positive i)) [
        | inl good ↦ rw good (record { dict = tt; count = omega arith; shut = tt })
        | inr bad ↦ rw bad tt
      ])
      h

-- Over any order of starts, scans and stops of a new subscriber, whichever children fail to connect:
-- a path has one child at most, and every child that was made is in the map or was stopped and has no
-- transport. A stop after them lets go of every child that was ever made, without a transport.
pub operate_all-IsAccounted :
    (d : String) (g : Option String) (c : Option (List String)) (i : ℤ) {m : MultiSocketSubscriber}
    (os : List Operation)
    → new_multi d g c i ≡ ok m
    → IsAccounted (operate_all os m)
      × (length (stop_multi (operate_all os m)).released ≡ (operate_all os m).made)
      × All IsShut (stop_multi (operate_all os m)).released
operate_all-IsAccounted d g c i {m} os h =
    let v = operates-IsAccounted os m (new_multi-IsAccounted d g c i h) in
    let stopped = stop_multi-released (operate_all os m) v in (v, stopped.0, stopped.1)
