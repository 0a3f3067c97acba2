-- ===== src/Benchmark/Command/Levels.antt =====
-- How the levels of concurrency of scripts/benchmark.py are read from a text.
use Prim.Native.Char.{code}
use Prim.Native.String.{◌++◌ as ◌<>◌}
use text.Mathlib.TextLemmas.{cons-append, nil-append}
use model_route.Base.{
  String, ℕ, suc, zero, ◌≡◌, ◌↔◌, refl, ap, ◌∙◌, Bool, false, ◌||◌, Option, some, List, [], ◌∷◌,
  map, All, arith, str_eq, ◌==◌, Bool-cases, inl, inr,
}
use model_route.Base.Int.{ℤ, pos, negsuc}
use model_route.Base.Unicode.{Unicode, strip}
use model_route.Benchmark.Command.{
  prepend, split, is_below_one, any_below_one, argument_error, checked_levels, put, levels_of,
  then_checked, parse_concurrency,
}
use model_route.Runtime.{ok}

unfoldable pub has_comma : String → Bool
has_comma String.[] = false
has_comma (String.◌∷◌ c s) = code c == 44 || has_comma s

-- How a number is written: `int(text.strip())` reads it back, and no comma is in it.
pub record IsShown (u : Unicode) (parse_int : String → Option ℤ) (show : ℤ → String) (n : ℤ)
    : Type 0 where
  pub parsed : parse_int (show n) ≡ some n
  pub stripped : strip u (show n) ≡ show n
  pub not_empty : str_eq (show n) "" ≡ false
  pub no_comma : has_comma (show n) ≡ false

-- `",".join(map(show, levels))`
unfoldable pub comma_joined : (ℤ → String) → ℤ → List ℤ → String
comma_joined show n [] = show n
comma_joined show n (m ∷ ns) = show n <> ("," <> comma_joined show m ns)

-- At least 1.
abbrev pub IsPositive : ℤ → Type 0
IsPositive n = (m : ℕ) × (n ≡ pos (suc m))

left_false : (a b : Bool) → (a || b) ≡ false → a ≡ false
left_false a b h = ground arith

right_false : (a b : Bool) → (a || b) ≡ false → b ≡ false
right_false a b h = ground arith

split-single : (s : String) → has_comma s ≡ false → split s ≡ s ∷ []
unfolding split has_comma prepend
split-single String.[] h = refl
split-single (String.◌∷◌ c s) h =
    rw
      (
        left_false (code c == 44) (has_comma s) h,
        split-single s (right_false (code c == 44) (has_comma s) h),
        prepend,
      )
      refl

comma-append : (t : String) → "," <> t ≡ String.◌∷◌ "," t
comma-append t = cons-append "," "" t ∙ ap (λ s. String.◌∷◌ "," s) (nil-append t)

split-append : (s t : String) → has_comma s ≡ false → split (s <> ("," <> t)) ≡ s ∷ split t
unfolding split has_comma prepend
split-append String.[] t h = ap split (nil-append ("," <> t) ∙ comma-append t)
split-append (String.◌∷◌ c s) t h =
    ap split (cons-append c s ("," <> t))
    ∙ rw
        (
          left_false (code c == 44) (has_comma s) h,
          split-append s t (right_false (code c == 44) (has_comma s) h),
          prepend,
        )
        refl

pos_inj : (m n : ℕ) → pos m ≡ pos n → m ≡ n
pos_inj m n e = cc

any_below_one_iff : (ns : List ℤ) → (any_below_one ns ≡ false) ↔ All IsPositive ns
unfolding any_below_one is_below_one
any_below_one_iff [] = ((λ _. tt), λ _. refl)
any_below_one_iff (pos zero ∷ ns) = ((λ h. cc), λ ((m, e), _). cc (pos_inj zero (suc m) e))
any_below_one_iff (pos (suc m) ∷ ns) =
    let rest = any_below_one_iff ns in
    ((λ h. ((m, refl), rest.0 (right_false _ _ h))), λ (_, later). ground (arith, rest.1 later))
any_below_one_iff (negsuc m ∷ ns) = ((λ h. cc), λ ((_, e), _). cc)

module _ (u : Unicode) (parse_int : String → Option ℤ) (show : ℤ → String) where
  split-comma_joined :
      (n : ℤ) (ns : List ℤ)
      → All (IsShown u parse_int show) (n ∷ ns)
      → split (comma_joined show n ns) ≡ map show (n ∷ ns)
  unfolding comma_joined
  split-comma_joined n [] (shown, _) = split-single (show n) shown.no_comma
  split-comma_joined n (m ∷ ns) (shown, later) =
      split-append (show n) (comma_joined show m ns) shown.no_comma
      ∙ ap (λ parts. show n ∷ parts) (split-comma_joined m ns later)

  levels_of-map :
      (ns : List ℤ)
      → All (IsShown u parse_int show) ns
      → levels_of u parse_int (map show ns) ≡ ok ns
  unfolding levels_of put
  levels_of-map [] all = refl
  levels_of-map (n ∷ ns) (shown, later) =
      rw (shown.stripped, shown.not_empty, shown.parsed, levels_of-map ns later) refl

  -- If each number is shown so that it is read back and holds no comma: numbers joined by commas
  -- are read back exactly if all are positive.
  pub parse_concurrency_iff :
      (n : ℤ) (ns : List ℤ)
      → All (IsShown u parse_int show) (n ∷ ns)
      → (parse_concurrency u parse_int (comma_joined show n ns) ≡ ok (n ∷ ns))
        ↔ All IsPositive (n ∷ ns)
  unfolding parse_concurrency then_checked checked_levels argument_error
  parse_concurrency_iff n ns shown =
      let below = any_below_one_iff (n ∷ ns) in
      rw (split-comma_joined n ns shown, levels_of-map (n ∷ ns) shown)
        (elim (Bool-cases (any_below_one (n ∷ ns))) [
          | inl bad ↦ rw bad ((λ h. cc), λ all. cc (bad, below.1 all))
          | inr fine ↦ rw fine ((λ _. below.0 fine), λ _. refl)
        ])
