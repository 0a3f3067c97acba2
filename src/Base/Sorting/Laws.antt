-- ===== src/Base/Sorting/Laws.antt =====
-- About `sorted`: its items, their order, and the order of equals.
use mathlib.Core.Bool.{Bool, true, false, ◌&&◌, not}
use mathlib.Core.List.{List, [], ◌∷◌, Perm}
use mathlib.Core.List.Perm
use mathlib.Core.List
use mathlib.Core.Nat as Unary
use mathlib.Core.Logic.{◌⊎◌, inl, inr}
use mathlib.Core.Path.{◌≡◌, refl, ap, sym, ◌∙◌}
use native.Mathlib.Omega.{arith}
use model_route.Base.Tests.{Bool-cases, if◌then◌else◌}
use Prim.Native.Nat.{ℕ, suc, ◌+◌}
use model_route.Base.Lists.{length, All, keep, count_if}
use model_route.Base.Sorting.{insert_stable, sorted}

-- The library's numbers as native ones.
native_of : Unary.ℕ → ℕ
native_of Unary.zero = 0
native_of (Unary.suc n) = suc (native_of n)

length-native_of : {A : Type 0} (xs : List A) → length xs ≡ native_of (List.length xs)
unfolding native_of
length-native_of [] = refl
length-native_of (x ∷ xs) = ap suc (length-native_of xs)

-- Permuted lists have one length.
pub length-Perm : {A : Type 0} (xs ys : List A) → Perm xs ys → length xs ≡ length ys
length-Perm xs ys p =
    length-native_of xs ∙ ap native_of (Perm.length-eq p) ∙ sym (length-native_of ys)

-- What `<` on the keys must be for the sort to mean anything.
pub record IsStrictWeak {ℓ} {A : Type ℓ} (lt : A → A → Bool) : Type ℓ where
  pub irrefl : (x : A) → lt x x ≡ false
  pub trans : (x y z : A) → lt x y ≡ true → lt y z ≡ true → lt x z ≡ true
  pub cotrans : (x y z : A) → lt x z ≡ true → (lt x y ≡ true) ⊎ (lt y z ≡ true)

module _ {ℓ} {A : Type ℓ} (lt : A → A → Bool) where
  -- No item is less than one that stands before it.
  abbrev pub IsSorted : List A → Type ℓ
  IsSorted [] = Unit
  IsSorted (x ∷ xs) = All (λ y. lt y x ≡ false) xs × IsSorted xs

  -- Neither is less than the other.
  abbrev pub equal_to : A → A → Bool
  equal_to k x = not (lt x k) && not (lt k x)

  insert_stable-perm : (x : A) (xs : List A) → Perm (insert_stable lt x xs) (x ∷ xs)
  unfolding insert_stable
  insert_stable-perm x [] = Perm.rfl
  insert_stable-perm x (y ∷ ys) = elim (Bool-cases (lt y x)) [
    | inl less ↦ rw less (Perm.trans (Perm.cons y (insert_stable-perm x ys)) (Perm.swap x y ys))
    | inr more ↦ rw more Perm.rfl
  ]

  pub sorted-perm : (xs : List A) → Perm (sorted lt xs) xs
  unfolding sorted
  sorted-perm [] = Perm.rfl
  sorted-perm (x ∷ xs) =
      Perm.trans (insert_stable-perm x (sorted lt xs)) (Perm.cons x (sorted-perm xs))

  All-insert_stable {κ} :
      (P : A → Type κ) (x : A) (xs : List A) → P x → All P xs → All P (insert_stable lt x xs)
  unfolding insert_stable
  All-insert_stable P x [] p h = (p, tt)
  All-insert_stable P x (y ∷ ys) p h = elim (Bool-cases (lt y x)) [
    | inl less ↦ rw less (h.0, All-insert_stable P x ys p h.1)
    | inr more ↦ rw more (p, h)
  ]

  -- Whatever holds of every item holds of every item of the sorted list.
  pub All-sorted {κ} : (P : A → Type κ) (xs : List A) → All P xs → All P (sorted lt xs)
  unfolding sorted
  All-sorted P [] h = tt
  All-sorted P (x ∷ xs) h = All-insert_stable P x (sorted lt xs) h.0 (All-sorted P xs h.1)

module _ {ℓ} {A : Type ℓ} {lt : A → A → Bool} (w : IsStrictWeak lt) where
  le_trans_lt : (x y z : A) → lt y x ≡ false → lt z y ≡ false → lt z x ≡ false
  le_trans_lt x y z h k = elim (Bool-cases (lt z x)) [
    | inl less ↦ ground (arith, w.cotrans z y x less)
    | inr more ↦ more
  ]

  All-le_trans :
      (x y : A) (zs : List A)
      → lt y x ≡ false
      → All (λ z. lt z y ≡ false) zs
      → All (λ z. lt z x ≡ false) zs
  All-le_trans x y [] h k = tt
  All-le_trans x y (z ∷ zs) h k = (le_trans_lt x y z h k.0, All-le_trans x y zs h k.1)

  le_of_lt : (x y : A) → lt y x ≡ true → lt x y ≡ false
  le_of_lt x y h = elim (Bool-cases (lt x y)) [
    | inl less ↦ cc (w.trans x y x less h, w.irrefl x)
    | inr more ↦ more
  ]

  insert_stable-IsSorted :
      (x : A) (xs : List A) → IsSorted lt xs → IsSorted lt (insert_stable lt x xs)
  unfolding insert_stable
  insert_stable-IsSorted x [] h = (tt, tt)
  insert_stable-IsSorted x (y ∷ ys) h = elim (Bool-cases (lt y x)) [
    | inl less ↦ rw less (
      All-insert_stable lt (λ z. lt z y ≡ false) x ys (le_of_lt x y less) h.0,
      insert_stable-IsSorted x ys h.1,
    )
    | inr more ↦ rw more ((more, All-le_trans x y ys more h.0), h)
  ]

  pub sorted-IsSorted : (xs : List A) → IsSorted lt (sorted lt xs)
  unfolding sorted
  sorted-IsSorted [] = tt
  sorted-IsSorted (x ∷ xs) = insert_stable-IsSorted x (sorted lt xs) (sorted-IsSorted xs)

  -- Two items equal to a third are not less than each other.
  equals_le : (k x y : A) → equal_to lt k x ≡ true → equal_to lt k y ≡ true → lt y x ≡ false
  equals_le k x y h j = le_trans_lt x k y (ground arith) (ground arith)

  keep-insert_stable :
      (k x : A) (xs : List A)
      → keep (equal_to lt k) (insert_stable lt x xs) ≡ keep (equal_to lt k) (x ∷ xs)
  unfolding insert_stable keep
  keep-insert_stable k x [] = refl
  keep-insert_stable k x (y ∷ ys) = ground (arith, keep-insert_stable k x ys, equals_le k x y)

  -- The items with one key come in the order of the input.
  pub sorted_stable :
      (k : A) (xs : List A) → keep (equal_to lt k) (sorted lt xs) ≡ keep (equal_to lt k) xs
  unfolding sorted keep
  sorted_stable k [] = refl
  sorted_stable k (x ∷ xs) =
      ground (arith, keep-insert_stable k x (sorted lt xs), sorted_stable k xs)

module _ {A : Type 0} (p : A → Bool) (lt : A → A → Bool) where
  count_if-insert_stable :
      (x : A) (ys : List A)
      → count_if p (insert_stable lt x ys) ≡ (if p x then 1 else 0) + count_if p ys
  unfolding insert_stable count_if
  count_if-insert_stable x [] = refl
  count_if-insert_stable x (y ∷ ys) = ground (arith, count_if-insert_stable x ys)

  -- Sorting changes no count.
  pub count_if-sorted : (xs : List A) → count_if p (sorted lt xs) ≡ count_if p xs
  unfolding sorted count_if
  count_if-sorted [] = refl
  count_if-sorted (x ∷ xs) =
      ground (arith, count_if-insert_stable x (sorted lt xs), count_if-sorted xs)
