-- ===== src/Wire/Socket/Bound.antt =====
-- wire/socket.py: what holds after a bind.
use Prim.Native.Nat.{◌%◌}
use terok_clearance.Common.{
  ℕ, Bool, true, false, Option, none, some, ◌∷◌, Result, ok, raise, nat_eq, ◌≡◌, refl, arith,
}
use terok_clearance.Wire.Socket.{
  bind_umask, Dir, BindFailure, Process, ensure_private_parent, bind_after, bind_hardened,
}

-- The umask is put back however a bind ends, its exceptions included.
pub bind_umask_restored :
    (uid : ℕ) (stat : Result BindFailure Dir)
    (unlinked context factory : Result BindFailure (Unit {0})) (left : Option Bool) (p : Process)
    → (bind_hardened uid stat unlinked context factory left p).0.umask ≡ p.umask
unfolding bind_hardened
bind_umask_restored uid stat unlinked context factory left p =
    go (ensure_private_parent uid stat) unlinked context factory
  where
    go :
        (parent unlinked context factory : Result BindFailure (Unit {0}))
        → (bind_after parent unlinked context factory left p).0.umask ≡ p.umask
    go (raise e) unlinked context factory = refl
    go (ok private) (raise e) context factory = refl
    go (ok private) (ok removed) (raise e) factory = refl
    go (ok private) (ok removed) (ok entered) (raise e) = refl
    go (ok private) (ok removed) (ok entered) (ok bound) = refl

-- A directory of the user that neither its group nor others can reach.
pub record IsPrivate (uid : ℕ) (dir : Dir) : Type 0 where
  pub owner : dir.uid ≡ uid
  pub mode : dir.mode % 64 ≡ 0

parent-IsPrivate :
    (uid : ℕ) (dir : Dir) → ensure_private_parent uid (ok dir) ≡ ok tt → IsPrivate uid dir
unfolding ensure_private_parent
parent-IsPrivate uid dir h = record { owner = ground arith; mode = ground arith }

-- The parent is private, the factory ran once under the umask with the path free, and a socket is left.
pub record IsHardened (uid : ℕ) (dir : Dir) (before after : Process) : Type 0 where
  pub parent : IsPrivate uid dir
  pub calls : after.calls ≡ (bind_umask, none) ∷ before.calls
  pub path : after.path ≡ some true

-- A bind that succeeds found a private parent directory, called the factory once, under the umask that
-- leaves a socket to its owner alone and with nothing at the path, and has left a socket there.
pub bind-IsHardened :
    (uid : ℕ) (dir : Dir) (unlinked context factory : Result BindFailure (Unit {0}))
    (left : Option Bool) (p : Process)
    → (bind_hardened uid (ok dir) unlinked context factory left p).1 ≡ ok tt
    → IsHardened uid dir p (bind_hardened uid (ok dir) unlinked context factory left p).0
unfolding bind_hardened
bind-IsHardened uid dir unlinked context factory left p h =
    go (ensure_private_parent uid (ok dir)) refl unlinked context factory left h
  where
    go :
        (parent : Result BindFailure (Unit {0}))
        → ensure_private_parent uid (ok dir) ≡ parent
        → (unlinked context factory : Result BindFailure (Unit {0})) (left : Option Bool)
        → (bind_after parent unlinked context factory left p).1 ≡ ok tt
        → IsHardened uid dir p (bind_after parent unlinked context factory left p).0
    go (raise e) same unlinked context factory left k = absurd (ground arith)
    go (ok private) same (raise e) context factory left k = absurd (ground arith)
    go (ok private) same (ok removed) (raise e) factory left k = absurd (ground arith)
    go (ok private) same (ok removed) (ok entered) (raise e) left k = absurd (ground arith)
    go (ok private) same (ok removed) (ok entered) (ok bound) none k = absurd (ground arith)
    go (ok private) same (ok removed) (ok entered) (ok bound) (some false) k = absurd (ground arith)
    go (ok private) same (ok removed) (ok entered) (ok bound) (some true) k = record {
      parent = parent-IsPrivate uid dir same;
      calls = refl;
      path = refl;
    }
