-- ===== src/Tasks/Spending.antt =====
-- What a task may spend at most, however it is interrupted: calls of one provider, and rows.
use model_route.Base.{String, ℕ, ◌+◌, ◌≤◌, Bool, true, false, arith, length, if◌then◌else◌}
use model_route.Completion.Trace.{calls}
use model_route.Runtime.{World, ok, raise, Action}
use model_route.Tasks.{Task, finished, piece, ◌>>=◌, lift}

module _ {F : Type 0} (i : String) where
  -- An action makes no more calls and rows than these.
  abbrev pub Takes : {A : Type 0} → ℕ → ℕ → Action F A → Type 0
  Takes n r m =
      (w : World F) → (calls i (m w).1 ≤ calls i w + n) × (length (m w).1.rows ≤ length w.rows + r)

  -- A task, from whatever states its pieces run in.
  abbrev pub Spends : {A : Type 0} → ℕ → ℕ → Task F A → Type 0
  Spends n r (finished out) = Unit
  Spends n r (piece change rest) =
      (w : World F)
      → (m : ℕ) × (s : ℕ) × (calls i (change w) + m ≤ calls i w + n)
        × (length (change w).rows + s ≤ length w.rows + r)
        × Spends m s (rest w)

  pub Spends-le :
      {A : Type 0} (n n' r r' : ℕ) (t : Task F A) → n ≤ n' → r ≤ r' → Spends n r t → Spends n' r' t
  Spends-le n n' r r' (finished out) h k each = tt
  Spends-le n n' r r' (piece change rest) h k each = λ w.
      let (m, s, less_calls, less_rows, later) = each w in (m, s, omega arith, omega arith, later)

  pub bind-Spends :
      {A B : Type 0} (a b n r : ℕ) (t : Task F A) (f : A → Task F B)
      → Spends a b t
      → ((x : A) → Spends n r (f x))
      → Spends (a + n) (b + r) (t >>= f)
  bind-Spends a b n r (finished (ok x)) f each next =
      Spends-le n (a + n) r (b + r) (f x) (omega arith) (omega arith) (next x)
  bind-Spends a b n r (finished (raise e)) f each next = tt
  bind-Spends a b n r (piece change rest) f each next = λ w.
      let (m, s, less_calls, less_rows, later) = each w in
      (m + n, s + r, omega arith, omega arith, bind-Spends m s n r (rest w) f later next)

  -- An action in one piece, and what follows it.
  pub lift-Spends :
      {A B : Type 0} (a b n r : ℕ) (m : Action F A) (f : A → Task F B)
      → Takes a b m
      → ((x : A) → Spends n r (f x))
      → Spends (a + n) (b + r) (lift m >>= f)
  lift-Spends a b n r m f takes next =
      bind-Spends a b n r (lift m) f
        (λ w. (0, 0, omega (arith, (takes w).0), omega (arith, (takes w).1), tt)) next

  -- The same after an action that spends nothing.
  pub quiet-Spends :
      {A B : Type 0} (n r : ℕ) (m : Action F A) (f : A → Task F B)
      → Takes 0 0 m
      → ((x : A) → Spends n r (f x))
      → Spends n r (lift m >>= f)
  quiet-Spends n r m f takes next =
      Spends-le (0 + n) n (0 + r) r (lift m >>= f) (omega arith) (omega arith)
        (lift-Spends 0 0 n r m f takes next)

  pub if-Spends :
      {A : Type 0} (n r : ℕ) (b : Bool) (s t : Task F A)
      → Spends n r s
      → Spends n r t
      → Spends n r (if b then s else t)
  if-Spends n r true s t first second = first
  if-Spends n r false s t first second = second
