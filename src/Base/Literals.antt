-- ===== src/Base/Literals.antt =====
-- Texts that the source spells as string literals and templates.
use Prim.Native.Char.{code}
use Prim.Native.String.{String}
use mathlib.Core.List.{List, [], ◌∷◌, ◌++◌}
use sqlanvil.Base.Equality.{Text}

-- The code units of a literal, which is ASCII.
unfoldable pub codes : String → Text
codes String.[] = []
codes (String.◌∷◌ c s) = code c ∷ codes s

-- A template: its pieces, one after another.
unfoldable pub template : List Text → Text
template [] = []
template (t ∷ ts) = t ++ template ts

-- `Array.join`
unfoldable pub joined : Text → List Text → Text
joined sep [] = []
joined sep (t ∷ []) = t
joined sep (t ∷ u ∷ us) = t ++ (sep ++ joined sep (u ∷ us))
