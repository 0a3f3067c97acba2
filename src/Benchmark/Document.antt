-- ===== src/Benchmark/Document.antt =====
-- scripts/benchmark.py: the document that describes a run, and its file.
use Prim.Native.Char.{code}
use Prim.Native.String.{◌++◌ as ◌<>◌}
use model_route.Base.{
  String, ℕ, Bool, true, false, ◌||◌, ◌&&◌, Option, none, some, List, [], ◌∷◌, ◌==◌, str_eq,
  if◌then◌else◌,
}
use model_route.Base.Int.{ℤ}
use model_route.Base.Unicode.{Unicode, strip}
use model_route.Benchmark.Summary.{Summary}
use model_route.Errors.{Exception}
use model_route.Runtime.{Outcome, ok, raise}

-- What `subprocess.run` does: it returns the output, or raises an `OSError` or a
-- `SubprocessError`.
pub data CommandResult : Type 0 where
  printed : String → CommandResult
  not_run : CommandResult

-- What the script asks of the machine and of the clock.
pub record Machine : Type 0 where
  pub python_version : String
  pub system : String
  pub release : String
  pub machine : String
  pub cpu_count : Option ℕ
  pub run : List String → CommandResult
  pub utc_now : String

-- The rest of a text after a start, if it has that start.
unfoldable pub has_start : String → String → Bool
has_start String.[] s = true
has_start (String.◌∷◌ c t) String.[] = false
has_start (String.◌∷◌ c t) (String.◌∷◌ d s) = code c == code d && has_start t s

-- `part in text`
unfoldable pub is_inside : String → String → Bool
unfolding has_start
is_inside part String.[] = has_start part ""
is_inside part (String.◌∷◌ c s) = has_start part (String.◌∷◌ c s) || is_inside part s

-- `url.rstrip("/")`
unfoldable pub rstrip_slash : String → String
rstrip_slash String.[] = ""
rstrip_slash (String.◌∷◌ c s) =
    let rest = rstrip_slash s in if code c == 47 && str_eq rest "" then "" else String.◌∷◌ c rest

-- The dict of `environment_metadata`.
pub record Environment : Type 0 where
  pub python_version : String
  pub os : String
  pub os_release : String
  pub machine : String
  pub logical_cpu_count : Option ℕ
  pub docker_version : String
  pub docker_compose_version : String
  pub docker_engine : String
  pub docker_kernel : String
  pub container_runtime : String

module _ (u : Unicode) (machine : Machine) where
  unfoldable pub command_version : List String → String
  command_version command = elim (machine.run command) [
    | printed stdout ↦ strip u stdout
    | not_run ↦ "unavailable"
  ]

  unfoldable pub environment_metadata : Environment
  unfolding command_version is_inside
  environment_metadata =
      let docker_kernel =
        command_version ("docker" ∷ "info" ∷ "--format" ∷ "{{.KernelVersion}}" ∷ []) in
      record {
        python_version = machine.python_version;
        os = machine.system;
        os_release = machine.release;
        machine = machine.machine;
        logical_cpu_count = machine.cpu_count;
        docker_version = command_version ("docker" ∷ "--version" ∷ []);
        docker_compose_version = command_version ("docker" ∷ "compose" ∷ "version" ∷ []);
        docker_engine =
            command_version
              ("docker" ∷ "info" ∷ "--format" ∷ "{{.OperatingSystem}} ({{.OSType}})" ∷ []);
        docker_kernel = docker_kernel;
        container_runtime =
            if is_inside "WSL2" docker_kernel
            then "Docker Desktop with WSL2 Linux engine"
            else "Docker engine";
      }

-- The dict under "metadata".
pub record Metadata (F : Type 0) : Type 0 where
  pub timestamp_utc : String
  pub base_url : String
  pub requests_per_scenario : ℤ
  pub concurrency_levels : List ℤ
  pub scenarios : List String
  pub warmup_requests : ℤ
  pub simulated_provider_latency_ms : F
  pub uvicorn_workers : ℕ
  pub rate_limiter : String
  pub postgresql_metrics : String
  pub environment : Environment

pub record Document (F : Type 0) : Type 0 where
  pub metadata : Metadata F
  pub results : List (Summary F)

-- A file that was written: its path and its text.
pub record File : Type 0 where
  pub path : String
  pub text : String

module _ {F : Type 0} where
  unfoldable pub build_document :
      Unicode → Machine → String → ℤ → List ℤ → List String → ℤ → F → List (Summary F) → Document F
  unfolding environment_metadata
  build_document u machine base_url request_count concurrency_levels scenarios warmup_requests
        simulated_provider_latency_ms results =
      record {
        metadata = record {
          timestamp_utc = machine.utc_now;
          base_url = base_url;
          requests_per_scenario = request_count;
          concurrency_levels = concurrency_levels;
          scenarios = scenarios;
          warmup_requests = warmup_requests;
          simulated_provider_latency_ms = simulated_provider_latency_ms;
          uvicorn_workers = 1;
          rate_limiter = "enabled and configured as non-binding";
          postgresql_metrics = "enabled";
          environment = environment_metadata u machine;
        };
        results = results;
      }

  -- `dumps` is `json.dumps(document, indent=2, sort_keys=True)`; `refused` is what the file system
  -- raises, if it does; then no file counts as written.
  unfoldable pub write_document :
      (Document F → String)
      → Option Exception
      → Document F
      → String
      → Outcome (Unit {0}) × Option File
  write_document dumps (some e) document output = (raise e, none)
  write_document dumps none document output =
      (ok tt, some (record { path = output; text = dumps document <> "\n" }))
