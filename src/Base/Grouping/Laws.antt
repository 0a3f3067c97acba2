-- ===== src/Base/Grouping/Laws.antt =====
-- About `GROUP BY`: no key comes twice, and the groups add up to the items.
use Prim.Native.Nat.{ℕ, ◌+◌, ◌*◌, ◌<◌}
use mathlib.Core.Bool.{Bool, true}
use mathlib.Core.List.{List, [], ◌∷◌}
use mathlib.Core.Logic.{◌↔◌, inl, inr}
use mathlib.Core.Path.{◌≡◌, refl, sym}
use native.Mathlib.Omega.{arith}
use model_route.Base.Grouping.{group, group_keys}
use model_route.Base.Lists.{All, count_if, sum_by, length, map_All}
use model_route.Base.Sorting.{sorted}
use model_route.Base.Sorting.Laws.{count_if-sorted}
use model_route.Base.Tests.{ltb, Bool-cases, if◌then◌else◌}

module _ {K A : Type 0} (same : K → K → Bool)
    (same_iff : (j k : K) → (same j k ≡ true) ↔ (j ≡ k)) where
  -- A key comes once if it has items, and else not at all.
  pub count_if-group_keys :
      (k : K) (items : List (K × A))
      → count_if (same k) (group_keys same items)
        ≡ (if ltb 0 (length (group same k items)) then 1 else 0)
  unfolding group group_keys count_if
  count_if-group_keys k [] = refl
  count_if-group_keys k ((j, a) ∷ items) = elim (Bool-cases (same k j)) [
    | inl equal ↦
        rw ((same_iff k j).0 equal)
          (ground (arith, count_if-group_keys j items, (same_iff j j).1 refl))
    | inr differ ↦ ground (arith, count_if-group_keys k items, differ)
  ]

  sum_by-swap :
      (f : A → ℕ) (j : K) (a : A) (items : List (K × A)) (ks : List K)
      → sum_by (λ k. sum_by f (group same k ((j, a) ∷ items))) ks
        ≡ count_if (same j) ks * f a + sum_by (λ k. sum_by f (group same k items)) ks
  unfolding sum_by count_if group
  sum_by-swap f j a items [] = omega arith
  sum_by-swap f j a items (k ∷ ks) = elim (Bool-cases (same k j)) [
    | inl equal ↦
        let back : same j k ≡ true = (same_iff j k).1 (sym ((same_iff k j).0 equal)) in
        ground (arith, sum_by-swap f j a items ks, equal, back)
    | inr differ ↦ elim (Bool-cases (same j k)) [
      | inl back ↦ cc ((same_iff k j).1 (sym ((same_iff j k).0 back)), differ)
      | inr apart ↦ ground (arith, sum_by-swap f j a items ks, differ, apart)
    ]
  ]

  sum_by-covered :
      (f : A → ℕ) (ks : List K) (items : List (K × A))
      → All (λ x. count_if (same x.0) ks ≡ 1) items
      → sum_by (λ k. sum_by f (group same k items)) ks ≡ sum_by (λ x. f x.1) items
  unfolding sum_by group
  sum_by-covered f [] [] once = refl
  sum_by-covered f (k ∷ ks) [] once = omega (arith, sum_by-covered f ks [] tt)
  sum_by-covered f ks ((j, a) ∷ items) (here, later) =
      grind (arith, sum_by-swap f j a items ks, sum_by-covered f ks items later, here)

  All-nonempty : (items : List (K × A)) → All (λ x. 0 < length (group same x.0 items)) items
  unfolding group
  All-nonempty [] = tt
  All-nonempty ((j, a) ∷ items) = (
    rw ((same_iff j j).1 refl) (omega arith),
    map_All items (λ x some_there. ground (arith, some_there)) (All-nonempty items),
  )

  -- Whatever order the groups come in, their sums add up to the sum over all items.
  pub sum_by-groups :
      (f : A → ℕ) (lt : K → K → Bool) (items : List (K × A))
      → sum_by (λ k. sum_by f (group same k items)) (sorted lt (group_keys same items))
        ≡ sum_by (λ x. f x.1) items
  sum_by-groups f lt items = sum_by-covered f (sorted lt (group_keys same items)) items (
      map_All items
        (λ x some_there. ground (
          arith,
          count_if-sorted (same x.0) lt (group_keys same items),
          count_if-group_keys x.0 items,
          some_there,
        ))
        (All-nonempty items))
