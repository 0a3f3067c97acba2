-- ===== src/Base/Float.antt =====
-- Python's floats, as far as the program uses them: an abstract type with its operations. The laws
-- are those that doubles other than NaN have under rounding; no equation of exact arithmetic is
-- among them.
use model_route.Base.Tests.{ltb, ◌==◌}
use Prim.Native.Nat.{ℕ, ◌+◌, ◌-◌, ◌*◌, ◌/◌, ◌≤◌}
use mathlib.Core.Path.{◌≡◌}
use mathlib.Core.Logic.{◌↔◌, ◌⊎◌}
use mathlib.Core.Bool.{Bool, true, false}
use native.Mathlib.Omega.{arith}

pub record Float (F : Type 0) : Type 0 where
  pub of_nat : ℕ → F
  pub add : F → F → F
  pub sub : F → F → F
  pub mul : F → F → F
  pub div : F → F → F
  pub lt : F → F → Bool
  pub eq : F → F → Bool

-- `x <= y`, away from NaN.
infix 4 ◌≼◌
abbrev pub ◌≼◌ : {F : Type 0} ⦃fl : Float F⦄ → F → F → Type 0
◌≼◌ ⦃fl⦄ x y = fl.lt y x ≡ false

-- `<` is a strict weak order, and `==` is its incomparability.
pub record IsOrdered (F : Type 0) ⦃fl : Float F⦄ : Type 0 where
  pub lt_irrefl : (x : F) → fl.lt x x ≡ false
  pub lt_trans : (x y z : F) → fl.lt x y ≡ true → fl.lt y z ≡ true → fl.lt x z ≡ true
  pub lt_cotrans : (x y z : F) → fl.lt x z ≡ true → (fl.lt x y ≡ true) ⊎ (fl.lt y z ≡ true)
  pub eq_iff_le : (x y : F) → (fl.eq x y ≡ true) ↔ ((x ≼ y) × (y ≼ x))

-- Rounding is monotone, and the sum and product of what is not negative are not negative.
pub record IsMonotone (F : Type 0) ⦃fl : Float F⦄ : Type 0 where
  pub add_mono : (x y u v : F) → x ≼ y → u ≼ v → fl.add x u ≼ fl.add y v
  pub mul_mono : (a x y : F) → fl.of_nat 0 ≼ a → x ≼ y → fl.mul a x ≼ fl.mul a y
  pub add_nonneg : (x y : F) → fl.of_nat 0 ≼ x → fl.of_nat 0 ≼ y → fl.of_nat 0 ≼ fl.add x y
  pub mul_nonneg : (x y : F) → fl.of_nat 0 ≼ x → fl.of_nat 0 ≼ y → fl.of_nat 0 ≼ fl.mul x y
  pub sub_nonneg : (x y : F) → y ≼ x → fl.of_nat 0 ≼ fl.sub x y

-- The laws can be met: millionths, rounded down.
instance abbrev pub millionths : Float ℕ
millionths = record {
  of_nat = λ n. n * 1_000_000;
  add = λ x y. x + y;
  sub = λ x y. x - y;
  mul = λ x y. x * y / 1_000_000;
  div = λ x y. x * 1_000_000 / y;
  lt = ltb;
  eq = ◌==◌;
}

pub millionths-IsOrdered : IsOrdered ℕ
millionths-IsOrdered = record {
  lt_irrefl = λ x. ground arith;
  lt_trans = λ x y z h k. ground arith;
  lt_cotrans = λ x y z h. ground arith;
  eq_iff_le = λ x y. ground arith;
}

mul-le : (a x y : ℕ) → x ≤ y → a * x / 1_000_000 ≤ a * y / 1_000_000
mul-le a x y h = grind arith

pub millionths-IsMonotone : IsMonotone ℕ
millionths-IsMonotone = record {
  add_mono = λ x y u v h k. ground arith;
  mul_mono = λ a x y h k. ground (arith, mul-le a x y);
  add_nonneg = λ x y h k. ground arith;
  mul_nonneg = λ x y h k. ground arith;
  sub_nonneg = λ x y h. ground arith;
}
