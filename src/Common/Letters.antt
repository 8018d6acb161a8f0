-- ===== src/Common/Letters.antt =====
-- Python's `str.lower()`, of ASCII letters.
use Prim.Native.Char.{Char, code}
use Prim.Native.String.{String}
use Prim.Native.Nat.{◌+◌}
use mathlib.Core.Bool.{◌&&◌}
use terok_clearance.Common.Tests.{leb, if◌then◌else◌}
use terok_clearance.Common.Utf8.{chr}

-- `lower()` of an ASCII letter
unfoldable pub lower_char : Char → Char
unfolding chr
lower_char c = if leb b'A' (code c) && leb (code c) b'Z' then chr (code c + 32) else c

unfoldable pub lower : String → String
unfolding lower_char
lower String.[] = String.[]
lower (String.◌∷◌ c s) = String.◌∷◌ (lower_char c) (lower s)
