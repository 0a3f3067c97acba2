-- ===== src/Metrics/Summary/Sums.antt =====
-- Sums over the columns of a table of rows, and over groups of them.
use text.Mathlib.TextEquality.{eq_iff}
use model_route.Base.{
  String, ℕ, ◌≡◌, ◌↔◌, refl, Bool, true, none, some, List, [], ◌∷◌, map, arith, length, All, ◌⊎◌,
  count_if, sum_by, if◌then◌else◌, inl, inr,
}
use mathlib.Core.Option
use model_route.Base.Float.{Float}
use model_route.Base.Grouping.{group, group_keys}
use model_route.Base.Grouping.Laws.{sum_by-groups}
use model_route.Base.Sorting.{sorted}
use model_route.Metrics.Statements.{
  ProviderKey, sql_sum, same_key, with_provider, key_before, provider_aggregate, provider_statement,
}
use model_route.Metrics.Summary.{ProviderRow, provider_row}
use model_route.Runtime.{Host, Row}

same_key_iff : (a b : ProviderKey) → (same_key a b ≡ true) ↔ (a ≡ b)
unfolding same_key
same_key_iff (p, none) (q, none) = ground (arith, eq_iff p q)
same_key_iff (p, none) (q, some n) = ground (arith, eq_iff p q)
same_key_iff (p, some m) (q, none) = ground (arith, eq_iff p q)
same_key_iff (p, some m) (q, some n) = ground (arith, eq_iff p q, eq_iff m n)

pub sql_sum_lem :
    {A : Type 0} (f : A → ℕ) (xs : List A) → Option.get_or (sql_sum (map f xs)) 0 ≡ sum_by f xs
unfolding sql_sum sum_by
sql_sum_lem f [] = refl
sql_sum_lem f (x ∷ xs) = omega (arith, sql_sum_lem f xs)

sum_by-map :
    {A B : Type 0} (f : B → ℕ) (g : A → B) (xs : List A)
    → sum_by f (map g xs) ≡ sum_by (λ x. f (g x)) xs
unfolding sum_by
sum_by-map f g [] = refl
sum_by-map f g (x ∷ xs) = omega (arith, sum_by-map f g xs)

sum_by-same :
    {A : Type 0} (f g : A → ℕ) (xs : List A) → ((x : A) → f x ≡ g x) → sum_by f xs ≡ sum_by g xs
unfolding sum_by
sum_by-same f g [] h = refl
sum_by-same f g (x ∷ xs) h = omega (arith, sum_by-same f g xs h, h x)

pub length-sum_by : {A : Type 0} (xs : List A) → length xs ≡ sum_by (λ x. 1) xs
unfolding sum_by
length-sum_by [] = refl
length-sum_by (x ∷ xs) = omega (arith, length-sum_by xs)

pub count_if-sum_by :
    {A : Type 0} (p : A → Bool) (xs : List A)
    → count_if p xs ≡ sum_by (λ x. if p x then 1 else 0) xs
unfolding sum_by count_if
count_if-sum_by p [] = refl
count_if-sum_by p (x ∷ xs) = omega (arith, count_if-sum_by p xs)

pub with_provider-sum :
    {F : Type 0} (f g : Row F → ℕ) (rows : List (Row F))
    → All
        (λ row.
          ((p : String) × (row.metric.provider ≡ some p) × (f row ≡ g row))
          ⊎ ((row.metric.provider ≡ none) × (g row ≡ 0)))
        rows
    → sum_by (λ x. f x.1) (with_provider rows) ≡ sum_by g rows
unfolding with_provider sum_by
with_provider-sum f g [] all = refl
with_provider-sum f g (row ∷ rows) (inl (p, named, same), later) =
    ground (arith, with_provider-sum f g rows later, named, same)
with_provider-sum f g (row ∷ rows) (inr (unnamed, zero'), later) =
    ground (arith, with_provider-sum f g rows later, unnamed, zero')

module _ {F : Type 0} ⦃fl : Float F⦄ (host : Host F) where
  -- The column of the table of providers adds up to the sum over the rows that have a provider.
  pub column-sum :
      (column : ProviderRow F → ℕ) (f : Row F → ℕ)
      → ((key : ProviderKey) (rows : List (Row F))
          → column (provider_row host (provider_aggregate host key rows)) ≡ sum_by f rows)
      → (rows : List (Row F))
      → sum_by column (map (provider_row host) (provider_statement host rows))
        ≡ sum_by (λ x. f x.1) (with_provider rows)
  unfolding provider_statement
  column-sum column f adds rows =
      let items = with_provider rows in
      let keys = sorted (key_before host) (group_keys same_key items) in
      rw
        (
          sum_by-map column (provider_row host)
              (map (λ key. provider_aggregate host key (group same_key key items)) keys),
          sum_by-map (λ a. column (provider_row host a))
              (λ key. provider_aggregate host key (group same_key key items)) keys,
          sum_by-same _ (λ key. sum_by f (group same_key key items)) keys
              (λ key. adds key (group same_key key items)),
        )
        (sum_by-groups same_key same_key_iff f (key_before host) items)
