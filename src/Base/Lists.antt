-- ===== src/Base/Lists.antt =====
-- Lists measured by native numbers, and counting by a Boolean test.
use Prim.Native.Nat.{ℕ, zero, suc, min, ◌+◌, ◌≤◌}
use mathlib.Core.Path.{◌≡◌, refl, ap}
use mathlib.Core.Bool.{Bool}
use mathlib.Core.List.{
  List, [], ◌∷◌, ◌++◌, map, Mem, mem-cons, not-mem-nil, mem-cons_self, mem-cons_of_mem,
}
use mathlib.Core.Logic.{◌↔◌, ∥∥₁_prop, inl, inr}
use mathlib.Core.Logic.Or
use mathlib.Core.HLevel.{×_prop}
use mathlib.Core.Bool.{true, Bool-set}
use native.Mathlib.Omega.{arith}
use model_route.Base.Tests.{if◌then◌else◌, Bool-cases}

-- A predicate on every item, by recursion.
abbrev pub All {ℓ κ} : {A : Type ℓ} → (A → Type κ) → List A → Type κ
All P [] = Unit
All P (x ∷ xs) = P x × All P xs

pub map_All {ℓ κ κ'} :
    {A : Type ℓ} {P : A → Type κ} {Q : A → Type κ'} (xs : List A)
    → ((x : A) → P x → Q x)
    → All P xs
    → All Q xs
map_All [] f all = tt
map_All (x ∷ xs) f (here, later) = (f x here, map_All xs f later)

pub All-map {κ} :
    {A B : Type 0} (P : B → Type κ) (f : A → B) (xs : List A)
    → All (λ x. P (f x)) xs
    → All P (map f xs)
All-map P f [] all = tt
All-map P f (x ∷ xs) (here, later) = (here, All-map P f xs later)

pub All-any {κ} : {A : Type 0} (P : A → Type κ) (xs : List A) → ((x : A) → P x) → All P xs
All-any P [] f = tt
All-any P (x ∷ xs) f = (f x, All-any P xs f)

module _ {ℓ} {A : Type ℓ} where
  abbrev pub length : List A → ℕ
  length [] = 0
  length (x ∷ xs) = suc (length xs)

  pub length-append : (xs ys : List A) → length (xs ++ ys) ≡ length xs + length ys
  length-append [] ys = omega arith
  length-append (x ∷ xs) ys = omega (arith, length-append xs ys)

  -- A comprehension `[x for x in xs if p(x)]`.
  unfoldable pub keep : (A → Bool) → List A → List A
  keep p [] = []
  keep p (x ∷ xs) = let rest = keep p xs in if p x then x ∷ rest else rest

  mem_of_mem-keep :
      (p : A → Bool) (xs : List A) (a : A) → Mem a (keep p xs) → Mem a xs × (p a ≡ true)
  unfolding keep
  mem_of_mem-keep p [] a m = absurd (not-mem-nil m)
  mem_of_mem-keep p (x ∷ xs) a m = elim (Bool-cases (p x)) [
    | inl pass ↦
        Or.elim (×_prop ∥∥₁_prop (Bool-set _ _)) (mem-cons.0 (rw (pass, keep) at m))
          (λ here. (rw here mem-cons_self, rw here pass))
          (λ later.
            let (inside, passes) = mem_of_mem-keep p xs a later in
            (mem-cons_of_mem x inside, passes))
    | inr fail ↦
        let (inside, passes) = mem_of_mem-keep p xs a (rw (fail, keep) at m) in
        (mem-cons_of_mem x inside, passes)
  ]

  mem-keep_of_mem : (p : A → Bool) (xs : List A) (a : A) → Mem a xs → p a ≡ true → Mem a (keep p xs)
  unfolding keep
  mem-keep_of_mem p [] a m h = m
  mem-keep_of_mem p (x ∷ xs) a m h =
      Or.elim ∥∥₁_prop (mem-cons.0 m) (λ here. rw ((rw here at h), keep) (rw here mem-cons_self))
        (λ later. elim (Bool-cases (p x)) [
          | inl pass ↦ rw (pass, keep) (mem-cons_of_mem x (mem-keep_of_mem p xs a later h))
          | inr fail ↦ rw (fail, keep) (mem-keep_of_mem p xs a later h)
        ])

  -- The comprehension keeps exactly the items that pass.
  pub mem-keep :
      (p : A → Bool) (xs : List A) (a : A) → Mem a (keep p xs) ↔ (Mem a xs × (p a ≡ true))
  mem-keep p xs a = (mem_of_mem-keep p xs a, λ (m, h). mem-keep_of_mem p xs a m h)

  -- How many items pass the test.
  unfoldable pub count_if : (A → Bool) → List A → ℕ
  count_if p [] = 0
  count_if p (x ∷ xs) = (if p x then 1 else 0) + count_if p xs

  -- `sum(f(x) for x in xs)`
  unfoldable pub sum_by : (A → ℕ) → List A → ℕ
  sum_by f [] = 0
  sum_by f (x ∷ xs) = f x + sum_by f xs

  pub count_if-append :
      (p : A → Bool) (xs ys : List A) → count_if p (xs ++ ys) ≡ count_if p xs + count_if p ys
  unfolding count_if
  count_if-append p [] ys = omega arith
  count_if-append p (x ∷ xs) ys = omega (arith, count_if-append p xs ys)

  pub count_if-true : (xs : List A) → count_if (λ x. true) xs ≡ length xs
  unfolding count_if
  count_if-true [] = refl
  count_if-true (x ∷ xs) = omega (arith, count_if-true xs)

  pub count_if-le-length : (p : A → Bool) (xs : List A) → count_if p xs ≤ length xs
  unfolding count_if
  count_if-le-length p [] = omega arith
  count_if-le-length p (x ∷ xs) = ground (arith, count_if-le-length p xs)

  pub length-keep : (p : A → Bool) (xs : List A) → length (keep p xs) ≡ count_if p xs
  unfolding keep count_if
  length-keep p [] = refl
  length-keep p (x ∷ xs) = ground (arith, length-keep p xs)

  pub count_if-keep-le : (p q : A → Bool) (xs : List A) → count_if p (keep q xs) ≤ count_if p xs
  unfolding count_if keep
  count_if-keep-le p q [] = omega arith
  count_if-keep-le p q (x ∷ xs) = ground (arith, count_if-keep-le p q xs)

  -- `xs[:n]` and `xs[n:]`
  unfoldable pub take : ℕ → List A → List A
  take n [] = []
  take n (x ∷ xs) = elim n [ zero ↦ [] | suc m ↦ x ∷ take m xs ]

  unfoldable pub drop : ℕ → List A → List A
  drop n [] = []
  drop n (x ∷ xs) = elim n [ zero ↦ x ∷ xs | suc m ↦ drop m xs ]

  pub take-drop : (n : ℕ) (xs : List A) → take n xs ++ drop n xs ≡ xs
  unfolding take drop
  take-drop n [] = refl
  take-drop zero (x ∷ xs) = refl
  take-drop (suc m) (x ∷ xs) = ap (λ ys. x ∷ ys) (take-drop m xs)

  pub length-take : (n : ℕ) (xs : List A) → length (take n xs) ≡ min n (length xs)
  unfolding take
  length-take n [] = omega arith
  length-take zero (x ∷ xs) = omega arith
  length-take (suc m) (x ∷ xs) = omega (arith, length-take m xs)

pub length-map : {A B : Type 0} (f : A → B) (xs : List A) → length (map f xs) ≡ length xs
length-map f [] = refl
length-map f (x ∷ xs) = omega (arith, length-map f xs)
