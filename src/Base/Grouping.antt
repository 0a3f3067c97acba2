-- ===== src/Base/Grouping.antt =====
-- SQL's `GROUP BY`: the distinct keys of the items, and the items of each key.
pub mod Laws
use Prim.Native.Nat.{ℕ}
use mathlib.Core.Bool.{Bool}
use mathlib.Core.List.{List, [], ◌∷◌}
use model_route.Base.Lists.{count_if}
use model_route.Base.Tests.{ltb, if◌then◌else◌}

module _ {K A : Type 0} (same : K → K → Bool) where
  -- The items of a key.
  unfoldable pub group : K → List (K × A) → List A
  group k [] = []
  group k ((j, a) ∷ items) = let rest = group k items in if same k j then a ∷ rest else rest

  -- Each key once.
  unfoldable pub group_keys : List (K × A) → List K
  unfolding count_if
  group_keys [] = []
  group_keys ((k, a) ∷ items) =
      let rest = group_keys items in if ltb 0 (count_if (same k) rest) then rest else k ∷ rest
