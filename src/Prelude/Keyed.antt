-- ===== src/Prelude/Keyed.antt =====
-- Sets of texts (`HashSet<String>`) as lists. The program never depends on the order in which a hash table yields its items.
use Prim.Native.String.{String}
use mathlib.Core.Path.{◌≡◌}
use mathlib.Core.Bool.{Bool, false, not, ◌&&◌, ◌||◌}
use mathlib.Core.List.{List, [], ◌∷◌}
use native.Mathlib.Omega.{arith}
use text.Mathlib.Text.{◌==◌}
use text.Mathlib.TextEquality.{eq_iff}
use typedb_mcp.Prelude.Tests.{if◌then◌else◌}

unfoldable pub has : String → List String → Bool
has k [] = false
has k (j ∷ l) = j == k || has k l

unfoldable pub add : String → List String → List String
add k l = if has k l then l else k ∷ l

unfoldable pub discard : String → List String → List String
discard k [] = []
discard k (j ∷ l) = let rest = discard k l in if j == k then rest else j ∷ rest

pub has-add : (k j : String) (l : List String) → has j (add k l) ≡ (k == j || has j l)
unfolding has add
has-add k j l = ground (arith, eq_iff k j)

pub has-discard : (k j : String) (l : List String) → has j (discard k l) ≡ (not (k == j) && has j l)
unfolding has discard
has-discard k j [] = ground arith
has-discard k j (i ∷ l) = ground (arith, has-discard k j l, eq_iff i k, eq_iff i j, eq_iff k j)
