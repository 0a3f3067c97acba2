-- ===== src/Tasks/Yielding.antt =====
-- What the value of a task is, if it ends with one, however it is interrupted.
use model_route.Base.{Bool, true, false, if◌then◌else◌}
use model_route.Errors.{Exception}
use model_route.Runtime
use model_route.Runtime.{World, Outcome, ok, raise, Action}
use model_route.Tasks.{Task, finished, piece, ◌>>=◌, lift}

-- Of an outcome, if it is a value.
abbrev pub IfOk : {A : Type 0} → (A → Type 0) → Outcome A → Type 0
IfOk P (ok a) = P a
IfOk P (raise e) = Unit

IfOk-any : {A : Type 0} (out : Outcome A) → IfOk (λ _. Unit {0}) out
IfOk-any (ok a) = tt
IfOk-any (raise e) = tt

-- An action that raises or returns a value.
pub if-IfOk :
    {F A : Type 0} (P : A → Type 0) (b : Bool) (e : Exception) (a : A) (w : World F)
    → P a
    → IfOk P ((if b then Runtime.throw e else Runtime.pure a) w).0
if-IfOk P true e a w p = tt
if-IfOk P false e a w p = p

module _ {F : Type 0} where
  abbrev pub Yields : {A : Type 0} → (A → Type 0) → Task F A → Type 0
  Yields P (finished out) = IfOk P out
  Yields P (piece change rest) = (w : World F) → Yields P (rest w)

  pub map-Yields :
      {A : Type 0} (P Q : A → Type 0) (t : Task F A)
      → ((a : A) → P a → Q a)
      → Yields P t
      → Yields Q t
  map-Yields P Q (finished (ok a)) f yields = f a yields
  map-Yields P Q (finished (raise e)) f yields = tt
  map-Yields P Q (piece change rest) f yields = λ w. map-Yields P Q (rest w) f (yields w)

  pub bind-Yields :
      {A B : Type 0} (P : A → Type 0) (Q : B → Type 0) (t : Task F A) (f : A → Task F B)
      → Yields P t
      → ((a : A) → P a → Yields Q (f a))
      → Yields Q (t >>= f)
  bind-Yields P Q (finished (ok a)) f yields next = next a yields
  bind-Yields P Q (finished (raise e)) f yields next = tt
  bind-Yields P Q (piece change rest) f yields next =
      λ w. bind-Yields P Q (rest w) f (yields w) next

  -- An action of which all is known that matters.
  pub lift-Yields :
      {A B : Type 0} (P : A → Type 0) (Q : B → Type 0) (m : Action F A) (f : A → Task F B)
      → ((w : World F) → IfOk P (m w).0)
      → ((a : A) → P a → Yields Q (f a))
      → Yields Q (lift m >>= f)
  lift-Yields P Q m f known next = bind-Yields P Q (lift m) f known next

  -- An action whose value does not matter.
  pub any-Yields :
      {A B : Type 0} (Q : B → Type 0) (m : Action F A) (f : A → Task F B)
      → ((a : A) → Yields Q (f a))
      → Yields Q (lift m >>= f)
  any-Yields Q m f next = lift-Yields (λ _. Unit {0}) Q m f (λ w. IfOk-any (m w).0) (λ a _. next a)

  pub if-Yields :
      {A : Type 0} (Q : A → Type 0) (b : Bool) (s t : Task F A)
      → Yields Q s
      → Yields Q t
      → Yields Q (if b then s else t)
  if-Yields Q true s t first second = first
  if-Yields Q false s t first second = second

  -- A task that raises in the end.
  pub raises-Yields :
      {A B : Type 0} (Q : B → Type 0) (t : Task F A) (e : Exception)
      → Yields Q (t >>= λ _. finished (raise e))
  raises-Yields Q (finished (ok a)) e = tt
  raises-Yields Q (finished (raise x)) e = tt
  raises-Yields Q (piece change rest) e = λ w. raises-Yields Q (rest w) e
