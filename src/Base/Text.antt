-- ===== src/Base/Text.antt =====
-- Python's order on `str`: by code points, from the left.
use Prim.Native.Nat.{ℕ}
use Prim.Native.Char.{code}
use Prim.Native.String.{String}
use mathlib.Core.Path.{◌≡◌, refl}
use mathlib.Core.Logic.{◌⊎◌, inl, inr}
use mathlib.Core.Bool.{Bool, true, false}
use mathlib.Core.List.{List, [], ◌∷◌}
use native.Mathlib.Omega.{arith}
use text.Mathlib.Text.{◌==◌ as str_eq}
use text.Mathlib.TextPositions.{eq_refl}
use model_route.Base.Tests.{ltb, ◌==◌, if◌then◌else◌}

unfoldable pub codes : String → List ℕ
codes String.[] = []
codes (String.◌∷◌ c s) = code c ∷ codes s

unfoldable pub lex_lt : List ℕ → List ℕ → Bool
lex_lt xs [] = false
lex_lt [] (y ∷ ys) = true
lex_lt (x ∷ xs) (y ∷ ys) = let rest = lex_lt xs ys in if x == y then rest else ltb x y

-- `s < t`
unfoldable pub str_lt : String → String → Bool
unfolding codes lex_lt
str_lt s t = lex_lt (codes s) (codes t)

pub str_eq_self : (s : String) → str_eq s s ≡ true
str_eq_self = eq_refl

lex_lt_irrefl : (xs : List ℕ) → lex_lt xs xs ≡ false
unfolding lex_lt
lex_lt_irrefl [] = refl
lex_lt_irrefl (x ∷ xs) = ground (arith, lex_lt_irrefl xs)

lex_lt_trans : (xs ys zs : List ℕ) → lex_lt xs ys ≡ true → lex_lt ys zs ≡ true → lex_lt xs zs ≡ true
unfolding lex_lt
lex_lt_trans xs ys [] h k = ground arith
lex_lt_trans xs [] (z ∷ zs) h k = ground arith
lex_lt_trans [] (y ∷ ys) (z ∷ zs) h k = refl
lex_lt_trans (x ∷ xs) (y ∷ ys) (z ∷ zs) h k = ground (arith, lex_lt_trans xs ys zs)

lex_lt_cotrans :
    (xs ys zs : List ℕ) → lex_lt xs zs ≡ true → (lex_lt xs ys ≡ true) ⊎ (lex_lt ys zs ≡ true)
unfolding lex_lt
lex_lt_cotrans xs ys [] h = ground arith
lex_lt_cotrans xs [] (z ∷ zs) h = inr refl
lex_lt_cotrans [] (y ∷ ys) (z ∷ zs) h = inl refl
lex_lt_cotrans (x ∷ xs) (y ∷ ys) (z ∷ zs) h = ground (arith, lex_lt_cotrans xs ys zs)

pub str_lt_irrefl : (s : String) → str_lt s s ≡ false
unfolding str_lt
str_lt_irrefl s = lex_lt_irrefl (codes s)

pub str_lt_trans : (s t u : String) → str_lt s t ≡ true → str_lt t u ≡ true → str_lt s u ≡ true
unfolding str_lt
str_lt_trans s t u = lex_lt_trans (codes s) (codes t) (codes u)

pub str_lt_cotrans :
    (s t u : String) → str_lt s u ≡ true → (str_lt s t ≡ true) ⊎ (str_lt t u ≡ true)
unfolding str_lt
str_lt_cotrans s t u = lex_lt_cotrans (codes s) (codes t) (codes u)
