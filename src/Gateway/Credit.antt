-- ===== src/Gateway/Credit.antt =====
-- How many requests of a client are let in while requests overlap (app/main.py, app/api/routes.py,
-- app/services/rate_limiter.py).
use model_route.Base.{
  String, ℕ, suc, ◌+◌, ◌*◌, ◌≤◌, ◌≡◌, refl, sym, subst, ◌∙◌, Bool, ◌&&◌, Option, none, some, List,
  [], ◌∷◌, ◌++◌, All, arith, str_eq, if◌then◌else◌, count_if,
}
use model_route.Base.Dict.{lookup}
use model_route.Base.Float.{Float}
use model_route.Base.Unicode.{Unicode}
use model_route.Completion.{CompletionService}
use model_route.Gateway.{
  Phase, arrived, timed, running, answered, turned_away, Thread, Choice, decided, advance, run,
  opened, is_let_in, let_in,
}
use model_route.Gateway.Tables.{IsSound, decided-IsSound, after_complete-world, append-All}
use model_route.Gateway.Threads.{decided_elim, Turned, here, there, Comes, run-keeps}
use model_route.RateLimiter.{TokenBucketRateLimiter, token, full, bucket_key, allow}
use model_route.RateLimiter.Admissions.{is_admitted}
use model_route.RateLimiter.Bank.{Bank, gain, allow-Bank}
use model_route.RateLimiter.Credit.{Credit-later, Credit-le, forward_run}
use model_route.RateLimiter.Expiry.{Lasts}
use model_route.Redis.{IsRedis}
use model_route.Routes.{Request, client_identity}
use model_route.Routes.Admissions.{bucket_key-NoCacheKey}
use model_route.Runtime.{Host, World, Outcome}
use model_route.Schemas.{ChatCompletionRequest}
use model_route.Tasks.{finished, piece}

-- The request's key is not that of another client.
abbrev pub IsApart : {F : Type 0} → Host F → Unicode → String → Request → Type 0
IsApart host u client request =
    bucket_key host client ≡ bucket_key host (client_identity u request)
    → client ≡ client_identity u request

module _ {F : Type 0} ⦃fl : Float F⦄ (host : Host F) (service : CompletionService F)
    (l : TokenBucketRateLimiter) (u : Unicode) (start : ℕ) (client : String) where
  decided-let_in :
      (body : ChatCompletionRequest F) (t : F) (x : Outcome Bool)
      → is_let_in (decided host service l u body t x) ≡ is_admitted x
  unfolding is_let_in
  decided-let_in body t =
      decided_elim host service l u body t (λ x phase. is_let_in phase ≡ is_admitted x) refl
        (λ x reply no. sym no)

  -- What a request of this phase has taken of the client's credit.
  abbrev taken : Request → Phase F → ℕ
  taken request phase =
      if str_eq (client_identity u request) client && is_let_in phase then 1 else 0

  -- After an advance the credit pays for what the request took now.
  abbrev Paid : Request → Phase F → ℕ → World F → Option (Phase F × World F) → Type 0
  Paid request phase spent w none = Unit
  Paid request phase spent w (some (phase', w')) =
      IsSound phase'
      × ((more : ℕ) × (taken request phase' ≡ taken request phase + more)
          × ((b : Option (ℕ × ℕ)) × Bank host l start client b (spent + more) w'))

  Bank-later :
      (b : Option (ℕ × ℕ)) (spent : ℕ) (w w' : World F)
      → w.tick ≤ w'.tick
      → lookup (bucket_key host client) w'.redis ≡ lookup (bucket_key host client) w.redis
      → Bank host l start client b spent w
      → Bank host l start client b (spent + 0) w'
  Bank-later b spent w w' ticks same (tracks, begun, credit) =
      let e : spent + 0 ≡ spent = omega arith in
      (
        same ∙ tracks,
        omega (arith, ticks, begun),
        rw e (Credit-later host l start b spent w.tick w'.tick ticks credit),
      )

  advance-Paid :
      IsRedis host
      → Lasts l
      → (request : Request) → IsApart host u client request
      → (phase : Phase F) → IsSound phase
      → (b : Option (ℕ × ℕ)) (spent : ℕ) (w : World F) → Bank host l start client b spent w
      → Paid request phase spent w (advance host service l u request phase w)
  unfolding advance is_let_in
  advance-Paid redis lasts request apart (arrived body) sound b spent w bank = (
    tt,
    (
      0,
      omega arith,
      (b, Bank-later b spent w (record w { tick = suc w.tick }) (omega arith) refl bank),
    ),
  )
  advance-Paid redis lasts request apart (timed body t) sound b spent w bank =
      let asker = client_identity u request in
      let (x, v) = allow host l asker w in
      let paid = allow-Bank host l start client redis lasts asker apart b spent w bank in
      (
        decided-IsSound host service l u body t x,
        (gain host l start client asker x, rw (decided-let_in body t x) (ground arith), paid),
      )
  advance-Paid redis lasts request apart (running (finished out)) sound b spent w bank =
      let same = after_complete-world out w in
      (tt, (0, omega arith, (b, rw same (Bank-later b spent w w (omega arith) refl bank))))
  advance-Paid redis lasts request apart (running (piece change rest)) sound b spent w bank =
      let ((ticks, _, _, keys), each) = sound w in
      (
        each,
        (
          0,
          omega arith,
          (
            b,
            Bank-later b spent w (change w) ticks
                (keys (bucket_key host client) (bucket_key-NoCacheKey host client)) bank,
          ),
        ),
      )
  advance-Paid redis lasts request apart (answered reply) sound b spent w bank = tt
  advance-Paid redis lasts request apart (turned_away reply) sound b spent w bank = tt

  -- After a turn the requests let in are paid for.
  Turned-Paid :
      IsRedis host
      → Lasts l
      → (ts ts' : List (Thread F)) (w w' : World F) → Turned host service l u ts w ts' w'
      → All (λ t. IsSound t.phase × IsApart host u client t.request) ts
      → (b : Option (ℕ × ℕ)) (spent : ℕ) → Bank host l start client b spent w
      → All (λ t. IsSound t.phase × IsApart host u client t.request) ts'
        × ((more : ℕ) × (let_in u client ts' ≡ let_in u client ts + more)
            × ((b' : Option (ℕ × ℕ)) × Bank host l start client b' (spent + more) w'))
  unfolding let_in count_if
  Turned-Paid redis lasts _ _ _ _ (here request phase phase' ts w w' e) ((sound, apart), all) b
        spent bank =
      let (sound', (more, gained, paid)) =
        subst (Paid request phase spent w) e
          (advance-Paid redis lasts request apart phase sound b spent w bank) in
      (((sound', apart), all), (more, omega (arith, gained), paid))
  Turned-Paid redis lasts _ _ _ _ (there t ts ts' w w' later) (first, all) b spent bank =
      let (all', (more, gained, paid)) =
        Turned-Paid redis lasts ts ts' w w' later all b spent bank in
      ((first, all'), (more, omega (arith, gained), paid))

  -- What every state keeps.
  abbrev Solvent : World F → List (Thread F) → Type 0
  Solvent w ts =
      All (λ t. IsSound t.phase × IsApart host u client t.request) ts
      × ((b : Option (ℕ × ℕ)) × Bank host l start client b (let_in u client ts) w)

  let_in-arrived :
      (ts : List (Thread F)) (request : Request) (body : ChatCompletionRequest F)
      → let_in u client (ts ++ record { request = request; phase = arrived body } ∷ [])
        ≡ let_in u client ts
  unfolding let_in count_if
  let_in-arrived [] request body = ground arith
  let_in-arrived (t ∷ ts) request body = omega (arith, let_in-arrived ts request body)

  Turned-Solvent :
      IsRedis host
      → Lasts l
      → (ts ts' : List (Thread F)) (w w' : World F) → Turned host service l u ts w ts' w'
      → Solvent w ts
      → Solvent w' ts'
  Turned-Solvent redis lasts ts ts' w w' turned (all, (b, bank)) =
      let (all', (more, gained, paid)) =
        Turned-Paid redis lasts ts ts' w w' turned all b (let_in u client ts) bank in
      (all', rw gained paid)

module _ {F : Type 0} ⦃fl : Float F⦄ (host : Host F) (service : CompletionService F)
    (l : TokenBucketRateLimiter) (u : Unicode) where
  -- If Redis replies as documented, the time to live lasts until a bucket is full, and no other
  -- client's key is the client's, which was not written yet: however the requests of any clients
  -- overlap, whatever fails, no more requests of the client are let in than the capacity and what
  -- the forward run of Redis' clock since the start refills.
  pub let_in-le :
      IsRedis host
      → Lasts l
      → (client : String) (cs : List (Choice F)) (w : World F)
      → All (Comes (IsApart host u client)) cs
      → lookup (bucket_key host client) w.redis ≡ none
      → let g = run host service l u cs (opened w) in
        let_in u client g.threads * token l
        ≤ full l + forward_run host w.tick g.world.tick * l.rate_num
  unfolding let_in count_if
  let_in-le redis lasts client cs w apart new =
      let kept : Solvent host service l u w.tick client (run host service l u cs (opened w)).world
          (run host service l u cs (opened w)).threads =
        run-keeps host service l u (Solvent host service l u w.tick client) (IsApart host u client)
          (λ request body v ts mine (all, (b, bank)). (
            append-All host service l u (λ t. IsSound t.phase × IsApart host u client t.request) ts
                _ all (tt, mine),
            (b, rw (let_in-arrived host service l u w.tick client ts request body) bank),
          ))
          (Turned-Solvent host service l u w.tick client redis lasts) cs apart (opened w)
          (tt, (none, (new, omega arith, refl))) in
      let (_, (b, (_, begun, credit))) = kept in Credit-le host l w.tick b _ _ begun credit
