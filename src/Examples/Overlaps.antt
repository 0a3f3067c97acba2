-- ===== src/Examples/Overlaps.antt =====
-- Requests that overlap on the small deployment.
use text.Mathlib.TextLemmas.{append_cancel_left}
use model_route.Base.{false, true, ℕ, ◌+◌, ◌*◌, ◌≤◌, ◌≡◌, refl, List, [], ◌∷◌, map}
use model_route.Base.Float.{millionths}
use model_route.Base.Dict.{lookup}
use model_route.Base.Unicode.{ascii, strip}
use model_route.Completion.{start_time}
use model_route.Completion.Tasks.{complete_task}
use model_route.Examples.{test_host, test_service, test_request, empty_world, test_host-IsRedis}
use model_route.Examples.Completions.{
  visitor, stranger, one_a_second, ann, ann_is_new, one_a_second-Lasts, clock,
}
use model_route.Gateway.{
  Thread, arrived, timed, Choice, arrive, turn, run, opened, let_in, is_let_in,
}
use model_route.Gateway.Alone.{Replied, arrived-Answers}
use model_route.Gateway.Budget.{all_let_in, calls-le-let_in}
use model_route.Completion.Candidates.{tries}
use model_route.Completion.Trace.{calls}
use model_route.Base.{suc, length}
use model_route.Gateway.Credit.{IsApart, let_in-le}
use model_route.Gateway.Origin.{Pairs, Belongs, arrivals, run-Belongs}
use model_route.Gateway.Tables.{RowsKept, run-RowsKept}
use model_route.Gateway.Threads.{All-Comes}
use model_route.RateLimiter.{allow, token_bucket_script, refilled, token, full, bucket_key}
use model_route.RateLimiter.Credit.{forward_run}
use model_route.Redis
use model_route.Routes.Laws.{Answers}
use model_route.Routes.{HttpReply, Request, client_identity}
use model_route.Runtime.{Host, World, Outcome}

-- Three requests of one client and one of another, their pieces mixed.
abbrev pub overlapping : List (Choice ℕ)
overlapping =
    arrive visitor test_request
    ∷ arrive visitor test_request
    ∷ turn 0
    ∷ arrive stranger test_request
    ∷ turn 1
    ∷ arrive visitor test_request
    ∷ turn 3
    ∷ turn 2
    ∷ turn 3
    ∷ turn 1
    ∷ turn 3
    ∷ turn 0
    ∷ turn 1
    ∷ turn 2
    ∷ []

-- A host whose Redis clock stands still.
abbrev still_host : Host ℕ
still_host = record test_host {
  redis_time = λ n. 0;
  redis_get = λ n key d. Redis.get 0 key d;
  redis_hmget = λ n key d. Redis.hmget 0 key d;
}

-- The bucket of two tokens lets two of the three in, those that asked first, and the other client in.
first_two :
    map
      (λ t. is_let_in t.phase)
      (run still_host test_service one_a_second ascii overlapping (opened empty_world)).threads
    ≡ false ∷ true ∷ true ∷ true ∷ []
unfolding run is_let_in allow token_bucket_script refilled Redis.hmget Redis.live Redis.hset_expire
    lookup client_identity strip complete_task start_time
first_two = refl

pub any_IsApart : (r : Request) → IsApart test_host ascii ann r
unfolding bucket_key
any_IsApart r e = append_cancel_left "modelroute:ratelimit:" ann (client_identity ascii r) e

let_in-le_example :
    let_in ascii ann
        (run test_host test_service one_a_second ascii overlapping (opened empty_world)).threads
      * token one_a_second
    ≤ full one_a_second
      + forward_run test_host 0
          (run test_host test_service one_a_second ascii overlapping
            (opened empty_world)).world.tick
        * 1
let_in-le_example =
    let_in-le test_host test_service one_a_second ascii test_host-IsRedis one_a_second-Lasts ann
      overlapping empty_world (All-Comes (IsApart test_host ascii ann) any_IsApart overlapping)
      ann_is_new

run-RowsKept_example :
    RowsKept []
      (run test_host test_service one_a_second ascii overlapping (opened empty_world)).world.rows
run-RowsKept_example =
    run-RowsKept test_host test_service one_a_second ascii overlapping empty_world

calls-le-let_in_example :
    (calls "a:m"
        (run test_host test_service one_a_second ascii overlapping (opened empty_world)).world
      ≤ calls "a:m" empty_world
        + all_let_in
            (run test_host test_service one_a_second ascii overlapping (opened empty_world)).threads
          * (tries "a:m" test_service.router.providers * suc test_service.max_retries))
    × (length
          (run test_host test_service one_a_second ascii overlapping
            (opened empty_world)).world.rows
        ≤ length empty_world.rows
          + all_let_in
              (run test_host test_service one_a_second ascii overlapping
                (opened empty_world)).threads)
calls-le-let_in_example =
    calls-le-let_in test_host test_service one_a_second ascii "a:m" overlapping empty_world

run-Belongs_example :
    Pairs test_host test_service one_a_second ascii
      (Belongs test_host test_service one_a_second ascii)
      (arrivals overlapping)
      (run test_host test_service one_a_second ascii overlapping (opened empty_world)).threads
run-Belongs_example = run-Belongs test_host test_service one_a_second ascii overlapping empty_world

abbrev two_waiting : List (Thread ℕ)
two_waiting =
    record { request = visitor; phase = arrived test_request }
    ∷ record { request = stranger; phase = timed test_request 0 }
    ∷ []

arrived-Answers_example :
    (out : Outcome (HttpReply ℕ) × World ℕ) × Replied test_host test_service one_a_second ascii
      two_waiting [] visitor
      (arrived test_request)
      empty_world
      out
    × Answers test_host test_service one_a_second ascii test_request visitor empty_world out
arrived-Answers_example =
    arrived-Answers test_host test_service one_a_second ascii two_waiting [] visitor test_request
      empty_world (clock 0 0)
