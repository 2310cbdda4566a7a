-- ===== src/Prelude/Text.antt =====
-- `str.split` and `str.join` at a single character.
use Prim.Native.Char.{Char, code}
use Prim.Native.Nat.{ℕ}
use Prim.Native.String.{String, ◌++◌}
use mathlib.Core.List.{List, [], ◌∷◌}
use st_tools.Prelude.Tests.{eqb, if◌then◌else◌}

prepend : Char → List String → List String
prepend c [] = (String.◌∷◌ c "") ∷ []
prepend c (w ∷ ws) = (String.◌∷◌ c w) ∷ ws

-- `s.split(sep)`: one piece more than there are separators, empty pieces kept.
unfoldable pub split : ℕ → String → List String
unfolding prepend
split sep String.[] = "" ∷ []
split sep (String.◌∷◌ c s) =
    let rest = split sep s in if eqb (code c) sep then "" ∷ rest else prepend c rest

-- `sep.join(l)`
unfoldable pub join : String → List String → String
join sep [] = ""
join sep (w ∷ []) = w
join sep (w ∷ v ∷ ws) = w ++ (sep ++ join sep (v ∷ ws))
