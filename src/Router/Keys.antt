-- ===== src/Router/Keys.antt =====
-- The orders that app/services/router.py sorts by.
use mathlib.Core.List.{Perm}
use model_route.Base.{
  String, ◌≡◌, refl, ◌⊎◌, inl, inr, Bool, true, false, not, ◌&&◌, List, [], ◌∷◌, ◌++◌, arith,
  str_lt, keep, Bool-cases, if◌then◌else◌, str_lt_irrefl, str_lt_trans, str_lt_cotrans,
}
use model_route.Base.Float.{Float, IsOrdered}
use model_route.Base.Sorting.{sorted, insert_stable}
use model_route.Base.Sorting.Laws.{
  IsStrictWeak, IsSorted, equal_to, sorted-perm, sorted-IsSorted, sorted_stable,
}
use model_route.Providers.{Provider, identity}
use model_route.Router.{key_lt, default_lt, is_other}

-- `ps` are the items of `qs`, ascending, those with one key in the order of `qs`.
pub record Ranks {A : Type 0} (lt : A → A → Bool) (qs ps : List A) : Type 0 where
  pub same_items : Perm ps qs
  pub ascending : IsSorted lt ps
  pub keeps_ties : (k : A) → keep (equal_to lt k) ps ≡ keep (equal_to lt k) qs

pub sorted-Ranks :
    {A : Type 0} {lt : A → A → Bool} → IsStrictWeak lt → (qs : List A) → Ranks lt qs (sorted lt qs)
sorted-Ranks {lt} w qs = record {
  same_items = sorted-perm lt qs;
  ascending = sorted-IsSorted w qs;
  keeps_ties = λ k. sorted_stable w k qs;
}

module _ {F : Type 0} ⦃fl : Float F⦄ (o : IsOrdered F) where
  -- `==` by `<`.
  pub eq-not_lt : (x y : F) → fl.eq x y ≡ (not (fl.lt x y) && not (fl.lt y x))
  eq-not_lt x y = elim (Bool-cases (fl.eq x y)) [
    | inl same ↦ ground (arith, (o.eq_iff_le x y).0 same)
    | inr differ ↦ ground (arith, (o.eq_iff_le x y).1)
  ]

  pub lt_asymm : (x y : F) → fl.lt x y ≡ true → fl.lt y x ≡ false
  lt_asymm x y h = ground (arith, o.lt_trans x y x, o.lt_irrefl x)

  -- `<` on pairs of a number and a text.
  abbrev pair_lt : F → String → F → String → Bool
  pair_lt x s y t = if fl.eq x y then str_lt s t else fl.lt x y

  pair_lt_irrefl : (x : F) (s : String) → pair_lt x s x s ≡ false
  pair_lt_irrefl x s = ground (arith, o.lt_irrefl x, str_lt_irrefl s)

  pair_lt_trans :
      (x y z : F) (s t u : String)
      → pair_lt x s y t ≡ true
      → pair_lt y t z u ≡ true
      → pair_lt x s z u ≡ true
  pair_lt_trans x y z s t u h k = ground (
    arith,
    eq-not_lt x y,
    eq-not_lt y z,
    eq-not_lt x z,
    o.lt_trans x y z,
    o.lt_cotrans x z y,
    o.lt_cotrans y x z,
    o.lt_cotrans z x y,
    o.lt_cotrans z y x,
    str_lt_trans s t u,
  )

  pair_lt_cotrans :
      (x y z : F) (s t u : String)
      → pair_lt x s z u ≡ true
      → (pair_lt x s y t ≡ true) ⊎ (pair_lt y t z u ≡ true)
  pair_lt_cotrans x y z s t u h = ground (
    arith,
    eq-not_lt x y,
    eq-not_lt y z,
    eq-not_lt x z,
    o.lt_cotrans x y z,
    o.lt_trans x z y,
    o.lt_trans y x z,
    o.lt_trans z y x,
    o.lt_cotrans y z x,
    o.lt_cotrans z x y,
    lt_asymm x z,
    lt_asymm x y,
    lt_asymm y z,
    str_lt_cotrans s t u,
  )

  pub key_lt-IsStrictWeak : (key : Provider F → F) → IsStrictWeak (key_lt key)
  unfolding key_lt
  key_lt-IsStrictWeak key = record {
    irrefl = λ p. pair_lt_irrefl (key p) (identity p.metadata);
    trans = λ p q r. pair_lt_trans (key p) (key q) (key r) _ _ _;
    cotrans = λ p q r. pair_lt_cotrans (key p) (key q) (key r) _ _ _;
  }

module _ {F : Type 0} where
  default_lt-IsStrictWeak : (d : String) → IsStrictWeak (default_lt {F = F} d)
  unfolding default_lt
  default_lt-IsStrictWeak d = record {
    irrefl = λ p. ground arith;
    trans = λ p q r h k. ground arith;
    cotrans = λ p q r h. ground arith;
  }

  abbrev pub is_default : String → Provider F → Bool
  is_default d p = not (is_other d p)

  insert_front :
      (d : String) (p : Provider F) (qs : List (Provider F))
      → is_other d p ≡ false
      → insert_stable (default_lt d) p qs ≡ p ∷ qs
  unfolding insert_stable default_lt
  insert_front d p [] h = refl
  insert_front d p (q ∷ qs) h = ground arith

  insert_past :
      (d : String) (p : Provider F) (qs rest : List (Provider F))
      → is_other d p ≡ true
      → insert_stable (default_lt d) p (keep (is_default d) qs ++ rest)
        ≡ keep (is_default d) qs ++ insert_stable (default_lt d) p rest
  unfolding insert_stable keep default_lt
  insert_past d p [] rest h = refl
  insert_past d p (q ∷ qs) rest h = ground (arith, insert_past d p qs rest h)

  insert_before_others :
      (d : String) (p : Provider F) (qs : List (Provider F))
      → is_other d p ≡ true
      → insert_stable (default_lt d) p (keep (is_other d) qs) ≡ p ∷ keep (is_other d) qs
  unfolding insert_stable keep default_lt
  insert_before_others d p [] h = refl
  insert_before_others d p (q ∷ qs) h = ground (arith, insert_before_others d p qs h)

  insert_default :
      (d : String) (p : Provider F) (qs : List (Provider F))
      → insert_stable (default_lt d) p (keep (is_default d) qs ++ keep (is_other d) qs)
        ≡ keep (is_default d) (p ∷ qs) ++ keep (is_other d) (p ∷ qs)
  unfolding keep
  insert_default d p qs = elim (Bool-cases (is_other d p)) [
    | inl other ↦ rw (insert_past d p qs _ other, insert_before_others d p qs other) (ground arith)
    | inr default ↦ rw (insert_front d p _ default) (ground arith)
  ]

  -- Sorting by a test on the name is the stable partition by that test.
  pub sorted-default :
      (d : String) (qs : List (Provider F))
      → sorted (default_lt d) qs ≡ keep (is_default d) qs ++ keep (is_other d) qs
  unfolding sorted keep
  sorted-default d [] = refl
  sorted-default d (p ∷ qs) = rw (sorted-default d qs) (insert_default d p qs)
