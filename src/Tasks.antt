-- ===== src/Tasks.antt =====
-- Coroutines of the process (the `async def` functions of app): requests overlap, and between two
-- pieces of one request others change the shared state.
pub mod Laws
pub mod Spending
pub mod Yielding
use model_route.Errors.{Exception}
use model_route.Runtime.{World, Outcome, ok, raise, Action}

-- A piece changes the state at once; what follows depends on the state that it found.
pub data Task (F A : Type 0) : Type 0 where
  finished : Outcome A → Task F A
  piece : (World F → World F) → (World F → Task F A) → Task F A

module _ {F : Type 0} where
  infixl 5 ◌>>=◌ ◌>>◌
  abbrev pub ◌>>=◌ : {A B : Type 0} → Task F A → (A → Task F B) → Task F B
  finished (ok a) >>= f = f a
  finished (raise e) >>= f = finished (raise e)
  piece change rest >>= f = piece change (λ w. rest w >>= f)

  abbrev pub ◌>>◌ : {A B : Type 0} → Task F A → Task F B → Task F B
  m >> k = m >>= λ _. k

  abbrev pub pure : {A : Type 0} → A → Task F A
  pure a = finished (ok a)

  abbrev pub throw : {A : Type 0} → Exception → Task F A
  throw e = finished (raise e)

  -- An action in one piece.
  abbrev pub lift : {A : Type 0} → Action F A → Task F A
  lift m = piece (λ w. (m w).1) (λ w. finished (m w).0)

  -- A look at the state.
  abbrev pub look : {A : Type 0} → (World F → Task F A) → Task F A
  look rest = piece (λ w. w) rest

  -- The task from a state on, if nothing else happens.
  abbrev pub alone : {A : Type 0} → Task F A → Action F A
  alone (finished out) w = (out, w)
  alone (piece change rest) w = alone (rest w) (change w)
