-- ===== src/Prelude/Texts.antt =====
-- Python's text operations that the sources use, on the native texts.
use Prim.Native.String.{String}
use Prim.Native.String
use mathlib.Core.List.{List, [], ◌∷◌}

-- "a" + "b"
unfoldable pub append : String → String → String
append s t = String.◌++◌ s t

-- An f-string, as the list of its pieces.
unfoldable pub fstring : List String → String
unfolding append
fstring [] = ""
fstring (s ∷ ss) = append s (fstring ss)
