-- ===== src/Benchmark/Workers/Laws.antt =====
-- About the workers of scripts/benchmark.py.
use model_route.Base.{
  ℕ, zero, suc, ◌*◌, ◌≤◌, ◌+◌, ◌<◌, ◌≡◌, ◌⊎◌, inl, inr, refl, Bool, true, List, [], ◌∷◌, arith,
  length, min, count_if, count_if-append, count_if-true, length-append,
}
use model_route.Base.Float.{Float}
use model_route.Benchmark.Workers.{
  Workers, start_workers, Step, takes, returns, answers, dies, Steps, stop, step,
}
use model_route.Benchmark.{RequestOutcome, http_error, outcome_of}

module _ {P : Type 0} where
  length_zero : (xs : List P) → length xs ≡ 0 → xs ≡ []
  length_zero [] h = refl
  length_zero (x ∷ xs) h = absurd (omega (arith, h))

  is_empty_or_not : (xs : List P) → (xs ≡ []) ⊎ (0 < length xs)
  is_empty_or_not [] = inl refl
  is_empty_or_not (x ∷ xs) = inr (omega arith)

module _ {F P : Type 0} ⦃fl : Float F⦄ where
  abbrev pub count_done : (P → Bool) → List (P × RequestOutcome F) → ℕ
  count_done test done = count_if (λ x. test x.0) done

  -- What every state of a run keeps.
  pub record Keeps (concurrency : ℕ) (payloads : List P) (w : Workers F P) : Type 0 where
    pub once :
        (test : P → Bool)
        → count_done test w.done
            + count_if test w.in_flight
            + count_if test w.broken
            + count_if test w.queue
          ≡ count_if test payloads
    pub workers :
        w.idle + length w.in_flight + w.returned + length w.broken
        ≡ min concurrency (length payloads)
    pub drained : (w.returned ≡ 0) ⊎ (w.queue ≡ [])

  start-Keeps :
      (concurrency : ℕ) (payloads : List P)
      → Keeps concurrency payloads (start_workers concurrency payloads)
  unfolding count_if
  start-Keeps concurrency payloads = record {
    once = λ test. omega arith;
    workers = omega arith;
    drained = inl refl;
  }

  Step-Keeps :
      (concurrency : ℕ) (payloads : List P) (v w : Workers F P)
      → Step v w
      → Keeps concurrency payloads v
      → Keeps concurrency payloads w
  unfolding count_if
  Step-Keeps concurrency payloads _ _ (takes p queue in_flight broken idle returned done) k =
      record {
        once = λ test. omega (arith, k.once test);
        workers = omega (arith, k.workers);
        drained = elim k.drained [
          | inl none_returned ↦ inl none_returned
          | inr empty ↦ absurd (ground (arith, empty))
        ];
      }
  Step-Keeps concurrency payloads _ _ (returns in_flight broken idle returned done) k = record {
    once = k.once;
    workers = omega (arith, k.workers);
    drained = inr refl;
  }
  Step-Keeps concurrency payloads _ _
        (answers p started_at ended_at answer outcome queue before after broken idle returned done
          is)
        k =
      record {
        once = λ test. omega (
          arith,
          k.once test,
          count_if-append test before (p ∷ after),
          count_if-append test before after,
          count_if-append (λ x. test x.0) done ((p, outcome) ∷ []),
        );
        workers =
            omega (arith, k.workers, length-append before (p ∷ after), length-append before after);
        drained = k.drained;
      }
  Step-Keeps concurrency payloads _ _
        (dies p started_at ended_at answer e queue before after broken idle returned done is) k =
      record {
        once = λ test. omega (
          arith,
          k.once test,
          count_if-append test before (p ∷ after),
          count_if-append test before after,
        );
        workers =
            omega (arith, k.workers, length-append before (p ∷ after), length-append before after);
        drained = k.drained;
      }

  Steps-Keeps :
      (concurrency : ℕ) (payloads : List P) (v w : Workers F P)
      → Steps v w
      → Keeps concurrency payloads v
      → Keeps concurrency payloads w
  Steps-Keeps concurrency payloads v _ (stop _) k = k
  Steps-Keeps concurrency payloads v w (step _ x _ steps one) k =
      Step-Keeps concurrency payloads x w one (Steps-Keeps concurrency payloads v x steps k)

  -- How many steps a run has made.
  pub size : {v w : Workers F P} → Steps v w → ℕ
  size (stop _) = 0
  size (step _ _ _ steps one) = suc (size steps)

  -- Each payload is taken, answered and followed by one more look at the queue.
  abbrev pub steps_left : Workers F P → ℕ
  steps_left w = 3 * length w.queue + 2 * length w.in_flight + w.idle

  Step-steps_left : (v w : Workers F P) → Step v w → suc (steps_left w) ≤ steps_left v
  Step-steps_left _ _ (takes p queue in_flight broken idle returned done) = omega arith
  Step-steps_left _ _ (returns in_flight broken idle returned done) = omega arith
  Step-steps_left _ _
        (answers p started_at ended_at answer outcome queue before after broken idle returned done
          is) =
      omega (arith, length-append before (p ∷ after), length-append before after)
  Step-steps_left _ _
        (dies p started_at ended_at answer e queue before after broken idle returned done is) =
      omega (arith, length-append before (p ∷ after), length-append before after)

  size-le : (v w : Workers F P) (steps : Steps v w) → size steps + steps_left w ≤ steps_left v
  unfolding size
  size-le v _ (stop _) = omega arith
  size-le v w (step _ x _ steps one) = omega (arith, size-le v x steps, Step-steps_left x w one)

  -- A run can go on until no payload is in flight and no worker has yet to look at the queue.
  progress :
      (queue in_flight broken : List P) (idle returned : ℕ) (done : List (P × RequestOutcome F))
      → let w : Workers F P = record {
        queue = queue;
        idle = idle;
        in_flight = in_flight;
        returned = returned;
        broken = broken;
        done = done;
      } in
        ((x : Workers F P) × Step w x) ⊎ ((idle ≡ 0) × (in_flight ≡ []))
  unfolding outcome_of
  progress queue (p ∷ rest) broken idle returned done = inl (
    _,
    answers p (fl.of_nat 0) (fl.of_nat 0) (http_error "ReadTimeout") _ queue [] rest broken idle
        returned done refl,
  )
  progress [] [] broken zero returned done = inr (refl, refl)
  progress (p ∷ queue) [] broken zero returned done = inr (refl, refl)
  progress [] [] broken (suc idle) returned done = inl (_, returns [] broken idle returned done)
  progress (p ∷ queue) [] broken (suc idle) returned done =
      inl (_, takes p queue [] broken idle returned done)

  pub all_returned :
      (concurrency : ℕ) (payloads : List P) (w : Workers F P)
      → 0 < concurrency
      → Steps (start_workers concurrency payloads) w
      → w.idle ≡ 0
      → w.in_flight ≡ []
      → w.broken ≡ []
      → (w.queue ≡ []) × ((test : P → Bool) → count_done test w.done ≡ count_if test payloads)
  unfolding count_if
  all_returned concurrency payloads w positive steps idle landed whole =
      let k = Steps-Keeps concurrency payloads _ w steps (start-Keeps concurrency payloads) in
      let flown : length w.in_flight ≡ 0 = rw landed refl in
      let alive : length w.broken ≡ 0 = rw whole refl in
      let empty : w.queue ≡ [] = elim k.drained [
        | inl none_returned ↦ length_zero w.queue (
            omega (
              arith,
              none_returned,
              idle,
              flown,
              alive,
              positive,
              k.workers,
              k.once (λ x. true),
              count_if-true w.queue,
              count_if-true payloads,
            ))
        | inr empty ↦ empty
      ] in
      (
        empty,
        λ test.
            let no_queue : count_if test w.queue ≡ 0 = rw empty refl in
            let no_flight : count_if test w.in_flight ≡ 0 = rw landed refl in
            let no_break : count_if test w.broken ≡ 0 = rw whole refl in
            omega (arith, k.once test, no_queue, no_flight, no_break),
      )

  -- Where no worker can go on: each payload has as many outcomes as it was queued times, if no
  -- worker died; and else what has no outcome is what a worker died at, or is left in the queue.
  abbrev pub Ended : List P → Workers F P → Type 0
  Ended payloads w =
      ((w.broken ≡ [])
        × (w.queue ≡ [])
        × ((test : P → Bool) → count_done test w.done ≡ count_if test payloads))
      ⊎ ((0 < length w.broken)
          × ((test : P → Bool)
              → count_done test w.done + count_if test w.broken + count_if test w.queue
                ≡ count_if test payloads))

  ended :
      (concurrency : ℕ) (payloads : List P) (w : Workers F P)
      → 0 < concurrency
      → Steps (start_workers concurrency payloads) w
      → w.idle ≡ 0
      → w.in_flight ≡ []
      → Ended payloads w
  unfolding count_if
  ended concurrency payloads w positive steps idle landed = elim (is_empty_or_not w.broken) [
    | inl whole ↦
        let (empty, once) = all_returned concurrency payloads w positive steps idle landed whole in
        inl (whole, empty, once)
    | inr dead ↦ inr (
      dead,
      λ test.
          let k = Steps-Keeps concurrency payloads _ w steps (start-Keeps concurrency payloads) in
          let no_flight : count_if test w.in_flight ≡ 0 = rw landed refl in
          omega (arith, k.once test, no_flight),
    )
  ]

  -- In whatever order the workers run and the answers come: a run makes at most three steps for each
  -- payload and one for each worker, and never has more requests in flight than `concurrency`. Where
  -- it can not go on, and no worker died of an exception, the queue is empty and each payload has as
  -- many outcomes as it was queued times: none is lost, none is sent twice. If workers died, what
  -- has no outcome is what they died at, or was left in the queue.
  pub workers_lem :
      (concurrency : ℕ) (payloads : List P) (w : Workers F P)
      → 0 < concurrency
      → (steps : Steps (start_workers concurrency payloads) w)
      → (size steps ≤ 3 * length payloads + min concurrency (length payloads))
        × (length w.in_flight ≤ concurrency)
        × (((x : Workers F P) × Step w x) ⊎ Ended payloads w)
  workers_lem concurrency payloads w positive steps =
      let k = Steps-Keeps concurrency payloads _ w steps (start-Keeps concurrency payloads) in
      (
        omega (arith, size-le _ w steps),
        omega (arith, k.workers),
        elim (progress w.queue w.in_flight w.broken w.idle w.returned w.done) [
          | inl more ↦ inl more
          | inr (idle, landed) ↦ inr (ended concurrency payloads w positive steps idle landed)
        ],
      )
