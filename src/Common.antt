-- ===== src/Common.antt =====
-- The names that the other modules share: the libraries', passed on, and those of the children
-- below. Texts are native strings: a Python `str` as its sequence of characters.
pub mod Int
pub mod Utf8
mod Tests
mod Lists
mod Mapping
mod Sets
mod Text
mod Results
mod Purge
mod Numerals
mod Every
mod Letters
mod Digits
pub use Tests.*
unfoldable pub use Lists.*
unfoldable pub use Mapping.*
unfoldable pub use Sets.*
pub use Text.*
pub use Results.*
unfoldable pub use Purge.*
unfoldable pub use Numerals.*
pub use Every.*
unfoldable pub use Letters.*
pub use Digits.*
pub use Prim.Native.Nat.{ℕ, zero, suc, ◌+◌, ◌-◌, ◌*◌, ◌≤◌, ◌<◌}
pub use Prim.Native.Char.{Char, code}
pub use Prim.Native.String.{String}
pub use mathlib.Core.Path.{◌≡◌, refl, sym, ap, ap₂, subst, ◌∙◌}
pub use mathlib.Core.Logic.{◌≢◌, ◌↔◌, ◌⊎◌, inl, inr}
pub use mathlib.Core.Bool.{Bool, true, false, ◌&&◌, ◌||◌, not}
pub use mathlib.Core.Option.{Option, none, some}
pub use mathlib.Core.List.{List, [], ◌∷◌, ◌++◌, map}
pub use native.Mathlib.Omega.{arith}
