-- ===== src/Wire/Socket.antt =====
-- wire/socket.py: `ensure_private_parent` and `bind_hardened`. What the operating system, the socket
-- context and the factory come to is an argument.
pub mod Bound
use Prim.Native.Nat.{◌%◌}
use terok_clearance.Common.{
  ℕ, Bool, true, false, not, Option, none, some, List, [], ◌∷◌, Result, ok, raise, ◌>>=◌, ◌==◌,
  nat_eq, if◌then◌else◌,
}

-- `_BIND_UMASK`
abbrev pub bind_umask : ℕ
bind_umask = 127

-- What `stat` says of the parent directory once `mkdir` has returned.
pub record Dir : Type 0 where
  pub uid : ℕ
  pub mode : ℕ

pub data BindFailure : Type 0 where
  -- the owner of the parent, and its mode
  foreign_parent open_parent : ℕ → BindFailure
  not_a_socket : BindFailure
  -- an exception of the operating system, of the socket context or of the factory
  outside : BindFailure

-- The process's umask, whether a file stands at the path and is a socket, and the umasks under which the
-- factory was called with the path free, the newest first.
pub record Process : Type 0 where
  pub umask : ℕ
  pub path : Option Bool
  pub calls : List (ℕ × Option Bool)

-- `ensure_private_parent`; the low six bits of the mode are those of the group and of the others.
unfoldable pub ensure_private_parent : ℕ → Result BindFailure Dir → Result BindFailure (Unit {0})
ensure_private_parent uid stat = do
  dir ← stat
  if not (dir.uid == uid)
      then raise (foreign_parent dir.uid)
      else if not (dir.mode % 64 == 0)
      then raise (open_parent (dir.mode % 512))
      else ok tt

-- `path.unlink()` that raises nothing but, swallowed, that there is no such file.
abbrev pub unlink : Process → Process
unlink p = record p { path = none }

-- The `with` block: the context, and the factory, which may leave a file at the path.
abbrev pub call_factory :
    Result BindFailure (Unit {0})
    → Result BindFailure (Unit {0})
    → Option Bool
    → Process
    → Process × Result BindFailure (Unit {0})
call_factory (raise e) factory left p = (p, raise e)
call_factory (ok entered) factory left p =
    (record p { calls = (p.umask, p.path) ∷ p.calls; path = left }, factory)

-- The umask is set for the call and put back whatever happens in it.
abbrev pub with_umask :
    (Process → Process × Result BindFailure (Unit {0}))
    → Process
    → Process × Result BindFailure (Unit {0})
with_umask body p =
    let (after, result) = body (record p { umask = bind_umask }) in
    (record after { umask = p.umask }, result)

-- `lstat`, which fails where nothing is left at the path.
abbrev pub check_socket : Option Bool → Result BindFailure (Unit {0})
check_socket none = raise outside
check_socket (some false) = raise not_a_socket
check_socket (some true) = ok tt

abbrev pub checked :
    Process × Result BindFailure (Unit {0}) → Process × Result BindFailure (Unit {0})
checked (p, raise e) = (p, raise e)
checked (p, ok bound) = (p, check_socket p.path)

abbrev pub bind_after :
    Result BindFailure (Unit {0})
    → Result BindFailure (Unit {0})
    → Result BindFailure (Unit {0})
    → Result BindFailure (Unit {0})
    → Option Bool
    → Process
    → Process × Result BindFailure (Unit {0})
bind_after (raise e) unlinked context factory left p = (p, raise e)
bind_after (ok private) (raise e) context factory left p = (p, raise e)
bind_after (ok private) (ok removed) context factory left p =
    checked (with_umask (call_factory context factory left) (unlink p))

-- `bind_hardened`, with what the parent's `stat`, the removal of a stale file, the context and the factory
-- come to, and what is left at the path.
unfoldable pub bind_hardened :
    ℕ
    → Result BindFailure Dir
    → Result BindFailure (Unit {0})
    → Result BindFailure (Unit {0})
    → Result BindFailure (Unit {0})
    → Option Bool
    → Process
    → Process × Result BindFailure (Unit {0})
unfolding ensure_private_parent
bind_hardened uid stat unlinked context factory left p =
    bind_after (ensure_private_parent uid stat) unlinked context factory left p
