-- ===== src/Lib.antt =====
-- ModelRoute, a gateway in front of several language-model providers: one route takes a prompt, a
-- token bucket in Redis limits each client, a router orders the providers that may serve, and the
-- completion service asks a response cache, tries the providers in order with a bounded number of
-- retries, and writes one row of metrics for each request.
--
-- Files, with the sources that they model:
--   Runtime     the state that the parts share and the outside that they ask; a monad of state and
--               exceptions in which the handlers are written (app/db/models.py for the rows)
--   Errors      app/exceptions.py
--   Json        the JSON values that app/services/cache.py writes and reads
--   Providers   app/providers/base.py
--   Latency     app/services/latency.py: `LatencyTracker.record` is `record_latency`
--   Router      app/services/router.py and `approximate_token_count` of
--               app/providers/mock_provider.py
--   Redis       how the commands that the cache and the limiter send are documented to be answered:
--               a key holds its newest write until it expires
--   Cache       app/services/cache.py
--   RateLimiter app/services/rate_limiter.py, with the Lua script as `token_bucket_script`
--   Schemas     app/api/schemas.py
--   Decimal     the decimal numbers of the costs
--   Metrics     app/services/metrics.py, `_record` as `record_metric`; the columns of
--               app/db/models.py; in Metrics/Statements, Metrics/Summary and Metrics/Recent the
--               reading side, with its SQL as functions of the rows
--   MetricsRoutes app/api/metrics_routes.py
--   Completion  app/services/completion_service.py: the inner loop of `complete` is `attempts`, the
--               outer one `try_candidates`; each `try` statement is a function of the outcome
--               of what it guards; in Completion/Tasks `complete` as a coroutine
--   Tasks       coroutines, as sequences of pieces that change the shared state
--   Adapters    app/providers/openai_provider.py, gemini_provider.py and mock_provider.py
--   Database    app/db/database.py, `prepare_database_connection` and the constructor of `Database`
--   App         app/config.py and the services that `create_app` of app/main.py builds; in
--               App/Lifespan what is set up and what is closed, in App/Serving the application
--               that `create_app` built while it serves
--   Benchmark   scripts/benchmark.py: `_request`; in Benchmark/Payloads what is sent, in
--               Benchmark/Workers the workers of `run_case` as steps in any order, in
--               Benchmark/Cases the whole of it, in Benchmark/Percentile and Benchmark/Summary
--               `percentile` and `summarize`, in Benchmark/Document the environment and the file, in
--               Benchmark/Command the arguments, the loops and the exit code
--   Routes      app/api/routes.py, `client_identity` and `create_completion`
--   Gateway     the process while it serves: requests to `create_completion` that overlap, piece by
--               piece, in any order
--   Base        lists, texts, dictionaries, sorting, grouping, floats and the Unicode database
--   Examples    a small deployment and runs on it
-- In a component's folder the modules hold its theorems, named for what they are about.
--
-- How the model relates to the code:
--   * A handler is a function from the state to an outcome and the next state. What was changed
--     before an exception stays changed. In these functions nothing happens in between. For
--     requests that overlap, `create_completion` and `complete` are given once more as coroutines;
--     `Gateway.run` takes any history of arrivals and of turns of the event loop. A piece ends at
--     each wait, and also at each look at a clock or at the averages, so more orders are covered
--     than asyncio allows. A command to Redis and an insert are one piece each. Requests are not
--     cancelled.
--   * The outside (clocks, Redis failures, provider replies, the database, `uuid4`) is asked by
--     number: its answer may depend on how many times it was asked before, so nothing is assumed
--     of it but what a theorem names: of Redis, say, that it replies as documented to the writes
--     that were sent (`IsRedis`, which excludes eviction). `json`, SHA-256, the response model's
--     reading of a field and `Decimal(str(x))` are functions of the outside.
--   * A float is an element of an abstract type with its operations. The laws that some theorems
--     take hold of doubles other than NaN under rounding. No exactness is assumed.
--   * The limiter's script is modelled in exact arithmetic: times in microseconds, the refill rate
--     as a fraction, tokens in units of one `1_000_000 * rate_den`-th. The script's own doubles
--     round, and Redis keeps 17 digits of them.
--   * A cached value whose fields have the wrong types is refused by the response model when the
--     response is built; the model refuses it when it is read.
--   * Decimals are exact; Python keeps 28 digits, and the column of the costs 12 places.
--   * The rows of `request_metrics` are a list, in the order in which they were written. `GROUP BY`,
--     `COUNT`, `SUM`, `ORDER BY` and `LIMIT` are functions of that list; the averages, the
--     percentiles, the order of texts and the order in which the database reads its rows are
--     functions of the outside.
--   * The loops are recursion over the list of candidates and over the attempts left, which is
--     `max_retries + 1` as in the code; there is no other bound and no fuel.
--   * An adapter is given its SDK client as a function that replies or raises, and of which classes
--     an exception is an instance. SQLAlchemy's parser and printer of URLs are arguments too.
--
-- Not modelled: the database engine and its sessions, the HTML pages, the HTTP client, what the
-- benchmark script prints, and the constructors of the SDK clients.
pub mod Adapters
pub mod App
pub mod Base
pub mod Benchmark
pub mod Cache
pub mod Completion
pub mod Database
pub mod Decimal
pub mod Errors
pub mod Examples
pub mod Gateway
pub mod Json
pub mod Latency
pub mod Metrics
pub mod MetricsRoutes
pub mod Providers
pub mod RateLimiter
pub mod Redis
pub mod Router
pub mod Routes
pub mod Runtime
pub mod Schemas
pub mod Tasks
