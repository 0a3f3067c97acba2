-- ===== src/Latency/History.antt =====
-- The averages of app/services/latency.py as a function of the samples of each provider.
use model_route.Base.{
  String, ◌≡◌, refl, ◌∙◌, ap, sym, eq_iff, Bool-cases, inl, inr, Option, none, some, List, [], ◌∷◌,
  str_eq, if◌then◌else◌,
}
use model_route.Base.Dict.{lookup, lookup-insert}
use model_route.Base.Float.{Float}
use model_route.Latency.{LatencyTracker, new_tracker, get, average, record_latency}
use mathlib.Core.Option

module _ {F : Type 0} ⦃fl : Float F⦄ (alpha initial : F) where
  -- A new tracker after samples of any providers, the newest first.
  abbrev pub tracked : List (String × F) → LatencyTracker F
  tracked [] = new_tracker alpha initial
  tracked ((p, x) ∷ older) = record_latency (tracked older) p x

  -- The weight of a sample is `alpha`, that of all that came before it `1 - alpha`; the first counts
  -- whole.
  abbrev pub smoothed : F → List F → F
  smoothed x [] = x
  smoothed x (y ∷ older) =
      fl.add (fl.mul alpha x) (fl.mul (fl.sub (fl.of_nat 1) alpha) (smoothed y older))

  -- The average of no sample is the initial one.
  abbrev pub expected : List F → F
  expected [] = initial
  expected (x ∷ older) = smoothed x older

  -- The samples of one provider.
  abbrev pub samples_of : String → List (String × F) → List F
  samples_of q [] = []
  samples_of q ((p, x) ∷ older) =
      let rest = samples_of q older in if str_eq q p then x ∷ rest else rest

  abbrev stored : List F → Option F
  stored [] = none
  stored (x ∷ older) = some (smoothed x older)

  tracked-alpha : (h : List (String × F)) → (tracked h).alpha ≡ alpha
  unfolding new_tracker record_latency
  tracked-alpha [] = refl
  tracked-alpha ((p, x) ∷ older) = tracked-alpha older

  tracked-initial : (h : List (String × F)) → (tracked h).initial_latency_ms ≡ initial
  unfolding new_tracker record_latency
  tracked-initial [] = refl
  tracked-initial ((p, x) ∷ older) = tracked-initial older

  average-stored : (x : F) (older : List F) → average alpha (stored older) x ≡ smoothed x older
  unfolding average
  average-stored x [] = refl
  average-stored x (y ∷ older) = refl

  lookup-tracked :
      (q : String) (h : List (String × F)) → lookup q (tracked h).ewma_ms ≡ stored (samples_of q h)
  unfolding new_tracker record_latency lookup
  lookup-tracked q [] = refl
  lookup-tracked q ((p, x) ∷ older) =
      let d = (tracked older).ewma_ms in
      let mine = lookup-tracked q older in
      lookup-insert q p (average (tracked older).alpha (lookup p d) x) d
      ∙ elim (Bool-cases (str_eq q p)) [
        | inl same ↦
            let here : lookup p d ≡ stored (samples_of q older) =
              ap (λ k. lookup k d) (sym ((eq_iff q p).0 same)) ∙ mine in
            rw (same, tracked-alpha older, here) (ap some (average-stored x (samples_of q older)))
        | inr other ↦ rw other mine
      ]

  stored-expected : (xs : List F) → Option.get_or (stored xs) initial ≡ expected xs
  stored-expected [] = refl
  stored-expected (x ∷ older) = refl

  -- Whatever samples of whatever providers were recorded, in any order: the average of a provider is
  -- that of its own samples, in which a sample weighs `alpha` and all before it `1 - alpha`, and the
  -- first counts whole; it is the initial one if there is none.
  pub get-tracked :
      (q : String) (h : List (String × F)) → get (tracked h) q ≡ expected (samples_of q h)
  unfolding get
  get-tracked q h = rw (lookup-tracked q h, tracked-initial h) (stored-expected (samples_of q h))
