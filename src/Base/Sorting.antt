-- ===== src/Base/Sorting.antt =====
-- Python's `sorted` with a key: the stable sort by `<` on the keys.
pub mod Laws
use mathlib.Core.Bool.{Bool}
use mathlib.Core.List.{List, [], ◌∷◌}
use model_route.Base.Tests.{if◌then◌else◌}

module _ {ℓ} {A : Type ℓ} (lt : A → A → Bool) where
  -- `x` stood before the list, so it goes before its equals.
  unfoldable pub insert_stable : A → List A → List A
  insert_stable x [] = x ∷ []
  insert_stable x (y ∷ ys) = if lt y x then y ∷ insert_stable x ys else x ∷ y ∷ ys

  unfoldable pub sorted : List A → List A
  unfolding insert_stable
  sorted [] = []
  sorted (x ∷ xs) = insert_stable x (sorted xs)
