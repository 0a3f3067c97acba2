-- ===== src/Benchmark/Percentile/Laws.antt =====
-- About `percentile` of scripts/benchmark.py.
use model_route.Base.{
  ℕ, suc, zero, ◌-◌, ◌≤◌, ◌<◌, ◌≡◌, ◌⊎◌, inl, inr, refl, List, [], ◌∷◌, length, ◌==◌, arith,
  if◌then◌else◌, Bool-cases, All, subst,
}
use model_route.Base.Float.{Float, ◌≼◌, IsOrdered, IsMonotone}
use model_route.Base.Sorting.{sorted}
use model_route.Base.Sorting.Laws.{
  IsSorted, IsStrictWeak, sorted-IsSorted, sorted-perm, length-Perm,
}
use model_route.Benchmark.Percentile.{Builtins, item, interpolated, at_position, percentile}
use model_route.Runtime.{Outcome, ok}

-- What the functions do with doubles that are exact whole numbers or between two of them.
pub record IsRounding {F : Type 0} ⦃fl : Float F⦄ (builtins : Builtins F) : Type 0 where
  pub floor_le : (x : F) → builtins.floor x ≤ builtins.ceil x
  pub ceil_le_suc : (x : F) → builtins.ceil x ≤ suc (builtins.floor x)
  pub ceil_le : (x : F) (n : ℕ) → x ≼ fl.of_nat n → builtins.ceil x ≤ n
  pub mul_one : (n : ℕ) → fl.mul (fl.of_nat n) (fl.of_nat 1) ≡ fl.of_nat n
  pub ratio_nonneg : (m n : ℕ) → 0 < n → fl.of_nat 0 ≼ fl.div (fl.of_nat m) (fl.of_nat n)
  pub ratio_le_one : (m n : ℕ) → 0 < n → m ≤ n → fl.div (fl.of_nat m) (fl.of_nat n) ≼ fl.of_nat 1
  pub of_nat_nonneg : (n : ℕ) → fl.of_nat 0 ≼ fl.of_nat n

module _ {F : Type 0} where
  item-ok : (xs : List F) (n : ℕ) → n < length xs → (x : F) × (item xs n ≡ ok x)
  unfolding item
  item-ok [] n h = absurd (omega (arith, h))
  item-ok (x ∷ xs) zero h = (x, refl)
  item-ok (x ∷ xs) (suc m) h = item-ok xs m (omega (arith, h))

  ok_inj : (x y : F) → ok x ≡ ok y → x ≡ y
  ok_inj x y e = cc

  item-All {κ} : (P : F → Type κ) (xs : List F) (n : ℕ) (x : F) → All P xs → item xs n ≡ ok x → P x
  unfolding item
  item-All P [] n x all h = cc
  item-All P (y ∷ ys) zero x (here, later) h = subst P (ok_inj y x h) here
  item-All P (y ∷ ys) (suc m) x (here, later) h = item-All P ys m x later h

module _ {F : Type 0} ⦃fl : Float F⦄ where
  -- In a sorted list a later item is not less.
  item-mono :
      (ordered : IsOrdered F) (xs : List F) (m n : ℕ) (a b : F)
      → IsSorted fl.lt xs
      → m ≤ n
      → item xs m ≡ ok a
      → item xs n ≡ ok b
      → a ≼ b
  unfolding item
  item-mono ordered [] m n a b s h i j = cc
  item-mono ordered (x ∷ xs) zero zero a b s h i j =
      rw (← ok_inj x a i, ← ok_inj x b j) (ordered.lt_irrefl x)
  item-mono ordered (x ∷ xs) zero (suc n) a b (least, s) h i j =
      subst (λ y. y ≼ b) (ok_inj x a i) (item-All (λ y. x ≼ y) xs n b least j)
  item-mono ordered (x ∷ xs) (suc m) zero a b s h i j = absurd (omega (arith, h))
  item-mono ordered (x ∷ xs) (suc m) (suc n) a b (least, s) h i j =
      item-mono ordered xs m n a b s (omega (arith, h)) i j

  -- The order of the values is that of their floats.
  lt-IsStrictWeak : IsOrdered F → IsStrictWeak fl.lt
  lt-IsStrictWeak ordered = record {
    irrefl = ordered.lt_irrefl;
    trans = ordered.lt_trans;
    cotrans = ordered.lt_cotrans;
  }

module _ {F : Type 0} ⦃fl : Float F⦄ (builtins : Builtins F) where
  -- The quantile stands between two neighbours of the sorted values, or on one of them.
  abbrev pub Interpolates : List F → F → Outcome F → Type 0
  Interpolates values quantile out =
      let position = fl.mul (fl.of_nat (length values - 1)) quantile in
      let lower = builtins.floor position in
      let upper = builtins.ceil position in
      (a : F) × (b : F) × (item (sorted fl.lt values) lower ≡ ok a)
      × (item (sorted fl.lt values) upper ≡ ok b)
      × (a ≼ b)
      × (upper ≤ suc lower)
      × (out
          ≡ ok (
              if lower == upper
              then a
              else fl.add a (fl.mul (fl.sub b a) (fl.sub position (fl.of_nat lower)))))

  module _ (ordered : IsOrdered F) (monotone : IsMonotone F) (rounding : IsRounding builtins) where
    -- Both neighbours are there.
    upper-le :
        (n : ℕ) (quantile : F)
        → quantile ≼ fl.of_nat 1
        → builtins.ceil (fl.mul (fl.of_nat n) quantile) ≤ n
    upper-le n quantile h = rounding.ceil_le (fl.mul (fl.of_nat n) quantile) n (
        subst (λ x. fl.mul (fl.of_nat n) quantile ≼ x) (rounding.mul_one n)
          (monotone.mul_mono (fl.of_nat n) quantile (fl.of_nat 1) (rounding.of_nat_nonneg n) h))

    at_position-ok :
        (xs : List F) (position a b : F)
        → item xs (builtins.floor position) ≡ ok a
        → item xs (builtins.ceil position) ≡ ok b
        → at_position builtins xs position
          ≡ ok (
              if builtins.floor position == builtins.ceil position
              then a
              else fl.add a
                  (fl.mul (fl.sub b a) (fl.sub position (fl.of_nat (builtins.floor position)))))
    unfolding at_position interpolated
    at_position-ok xs position a b i j =
        elim (Bool-cases (builtins.floor position == builtins.ceil position)) [
          | inl same ↦ rw (same) i
          | inr differ ↦ rw (differ, i, j) refl
        ]

    -- If floats are ordered, multiplication is monotone and `floor` and `ceil` round to whole numbers: for
    -- a quantile from 0 to 1 `percentile` never raises. Without values it is 0; else it is one of the sorted
    -- values, or interpolates between two neighbours of them.
    pub percentile_lem :
        (values : List F) (quantile : F)
        → fl.of_nat 0 ≼ quantile
        → quantile ≼ fl.of_nat 1
        → ((values ≡ []) × (percentile builtins values quantile ≡ ok (fl.of_nat 0)))
          ⊎ Interpolates values quantile (percentile builtins values quantile)
    unfolding percentile
    percentile_lem [] quantile low high = inl (refl, refl)
    percentile_lem (x ∷ xs) quantile low high =
        let values = x ∷ xs in
        let position = fl.mul (fl.of_nat (length values - 1)) quantile in
        let sized = length-Perm (sorted fl.lt values) values (sorted-perm fl.lt values) in
        let top = upper-le (length values - 1) quantile high in
        let below = rounding.floor_le position in
        let (a, i) =
          item-ok (sorted fl.lt values) (builtins.floor position)
            (omega (arith, top, below, sized)) in
        let (b, j) =
          item-ok (sorted fl.lt values) (builtins.ceil position) (omega (arith, top, sized)) in
        inr (
          a,
          b,
          i,
          j,
          item-mono ordered (sorted fl.lt values) (builtins.floor position) (builtins.ceil position)
              a b (sorted-IsSorted (lt-IsStrictWeak ordered) values) below i j,
          rounding.ceil_le_suc position,
          rw (low, high) (at_position-ok (sorted fl.lt values) position a b i j),
        )

    -- A percentile of a ratio is a float.
    pub percentile-ok :
        (values : List F) (m n : ℕ)
        → 0 < n
        → m ≤ n
        → (x : F) × (percentile builtins values (fl.div (fl.of_nat m) (fl.of_nat n)) ≡ ok x)
    percentile-ok values m n positive h =
        elim (percentile_lem values (fl.div (fl.of_nat m) (fl.of_nat n))
          (rounding.ratio_nonneg m n positive) (rounding.ratio_le_one m n positive h)) [
            | inl (_, nothing) ↦ (fl.of_nat 0, nothing)
            | inr (a, b, _, _, _, _, e) ↦ (_, e)
          ]
