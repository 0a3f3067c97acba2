-- ===== src/Tasks/Laws.antt =====
-- How tasks run by themselves, and what all their pieces do.
use model_route.Base.{◌≡◌, refl, ap, ◌∙◌}
use model_route.Runtime.{World, Outcome, ok, raise, Action, ◌>>=◌}
use model_route.Tasks.{Task, finished, piece, lift, alone}
use model_route.Tasks

module _ {F : Type 0} where
  -- By itself the task does as the action.
  abbrev pub Runs : {A : Type 0} → Task F A → Action F A → Type 0
  Runs t m = (w : World F) → alone t w ≡ m w

  alone-bind :
      {A B : Type 0} (t : Task F A) (f : A → Task F B) (w : World F)
      → alone (Tasks.◌>>=◌ t f) w ≡ (alone t >>= λ a. alone (f a)) w
  alone-bind (finished (ok a)) f w = refl
  alone-bind (finished (raise e)) f w = refl
  alone-bind (piece change rest) f w = alone-bind (rest w) f (change w)

  after_same :
      {A B : Type 0} (f g : A → Action F B)
      → ((a : A) (w : World F) → f a w ≡ g a w)
      → (x : Outcome A) (w : World F) → ((λ _. (x, w)) >>= f) w ≡ ((λ _. (x, w)) >>= g) w
  after_same f g same (ok a) w = same a w
  after_same f g same (raise e) w = refl

  pub bind-Runs :
      {A B : Type 0} (t : Task F A) (m : Action F A) (f : A → Task F B) (g : A → Action F B)
      → Runs t m
      → ((a : A) → Runs (f a) (g a))
      → Runs (Tasks.◌>>=◌ t f) (m >>= g)
  bind-Runs t m f g first next w =
      alone-bind t f w
      ∙ ap (λ x. ((λ _. x) >>= λ a. alone (f a)) w) (first w)
      ∙ after_same (λ a. alone (f a)) g next (m w).0 (m w).1

  -- Every piece, in whatever state it runs, relates the states before and after.
  abbrev pub Each : {A : Type 0} → (World F → World F → Type 0) → Task F A → Type 0
  Each R (finished out) = Unit
  Each R (piece change rest) = (w : World F) → R w (change w) × Each R (rest w)

  pub bind-Each :
      {A B : Type 0} (R : World F → World F → Type 0) (t : Task F A) (f : A → Task F B)
      → Each R t
      → ((a : A) → Each R (f a))
      → Each R (Tasks.◌>>=◌ t f)
  bind-Each R (finished (ok a)) f each next = next a
  bind-Each R (finished (raise e)) f each next = tt
  bind-Each R (piece change rest) f each next =
      λ w. ((each w).0, bind-Each R (rest w) f (each w).1 next)
