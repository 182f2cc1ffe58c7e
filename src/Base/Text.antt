-- ===== src/Base/Text.antt =====
-- String literals of C as the numbers of their characters.
use Prim.Native.Char.{code}
use Prim.Native.String.{String}
use Prim.Native.Nat.{ℕ}
use mathlib.Core.List.{List, [], ◌∷◌}

abbrev pub codes : String → List ℕ
codes String.[] = []
codes (String.◌∷◌ c s) = code c ∷ codes s
