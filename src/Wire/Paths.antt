-- ===== src/Wire/Paths.antt =====
-- wire/socket.py, verdict/socket.py, hub/ingester.py and client/subscriber.py: the default paths of
-- sockets, with what `pathlib` makes of a POSIX path.
pub mod Rendered
use terok_clearance.Common.{
  ℕ, Char, code, String, Bool, true, false, not, ◌&&◌, Option, none, some, List, [], ◌∷◌, string_eq,
  nat_eq, ◌==◌, concat, truthy, or_else, str_of_ℕ, if◌then◌else◌,
}

-- The parts of a path after those that came before it, without the empty ones and the single dots.
-- The last part stands first.
unfoldable pub path_parts : String → String → List String → List String
path_parts String.[] part parts = if truthy part && not (part == ".") then part ∷ parts else parts
path_parts (String.◌∷◌ c s) part parts =
    let kept = if truthy part && not (part == ".") then part ∷ parts else parts in
    path_parts s (if code c == b'/' then "" else concat part (String.◌∷◌ c ""))
      (if code c == b'/' then kept else parts)

-- What a path begins with: POSIX keeps two slashes apart from one, and reads three as one.
pub data Root : Type 0 where
  relative single double : Root

abbrev pub is_slash : Char → Bool
is_slash c = code c == b'/'

abbrev pub after_two : String → Root
after_two String.[] = double
after_two (String.◌∷◌ c s) = if is_slash c then single else double

abbrev pub after_one : String → Root
after_one String.[] = single
after_one (String.◌∷◌ c s) = if is_slash c then after_two s else single

abbrev pub root_of : String → Root
root_of String.[] = relative
root_of (String.◌∷◌ c s) = if is_slash c then after_one s else relative

pub record PosixPath : Type 0 where
  pub root : Root
  -- the last one first
  pub parts : List String

-- `Path(text)`
unfoldable pub posix_path : String → PosixPath
unfolding path_parts
posix_path text = record { root = root_of text; parts = path_parts text "" [] }

abbrev pub join_at : Root → String → PosixPath → PosixPath
join_at relative text p = record p { parts = path_parts text "" p.parts }
join_at single text p = record { root = single; parts = path_parts text "" [] }
join_at double text p = record { root = double; parts = path_parts text "" [] }

-- `p / text`
unfoldable pub join_path : PosixPath → String → PosixPath
unfolding path_parts
join_path p text = join_at (root_of text) text p

abbrev pub root_text : Root → String
root_text relative = ""
root_text single = "/"
root_text double = "//"

unfoldable pub parts_text : List String → String
parts_text [] = ""
parts_text (name ∷ []) = name
parts_text (name ∷ parent ∷ parts) = concat (parts_text (parent ∷ parts)) (concat "/" name)

-- `str(p)`
unfoldable pub path_text : PosixPath → String
unfolding parts_text
path_text p = or_else (concat (root_text p.root) (parts_text p.parts)) "."

-- `$XDG_RUNTIME_DIR`, or `/run/user/<uid>` where it is unset or empty
unfoldable pub runtime_dir : Option String → ℕ → PosixPath
unfolding posix_path str_of_ℕ
runtime_dir none uid = posix_path (concat "/run/user/" (str_of_ℕ uid))
runtime_dir (some xdg) uid =
    if truthy xdg then posix_path xdg else posix_path (concat "/run/user/" (str_of_ℕ uid))

-- `runtime_socket_path`
unfoldable pub runtime_socket_path : Option String → ℕ → String → PosixPath
unfolding runtime_dir join_path
runtime_socket_path xdg uid basename = join_path (runtime_dir xdg uid) basename

-- `default_clearance_socket_path`, `default_verdict_socket_path`, and the ingester's
-- `default_socket_path`
abbrev pub default_clearance_socket_path : Option String → ℕ → PosixPath
default_clearance_socket_path xdg uid = runtime_socket_path xdg uid "terok-clearance.sock"

abbrev pub default_verdict_socket_path : Option String → ℕ → PosixPath
default_verdict_socket_path xdg uid = runtime_socket_path xdg uid "terok-clearance-verdict.sock"

abbrev pub default_socket_path : Option String → ℕ → PosixPath
default_socket_path xdg uid = runtime_socket_path xdg uid "terok-shield-events.sock"

-- The socket of a container under the layout that the default glob spells out.
abbrev pub hub_socket : Option String → ℕ → String → PosixPath
hub_socket xdg uid container =
    join_path
      (join_path (join_path (join_path (runtime_dir xdg uid) "terok") "clearance") container)
      "hub.sock"

-- `_default_socket_glob`
unfoldable pub default_socket_glob : Option String → ℕ → String
unfolding runtime_dir join_path path_text
default_socket_glob xdg uid = path_text (hub_socket xdg uid "*")
