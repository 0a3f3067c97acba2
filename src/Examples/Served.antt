-- ===== src/Examples/Served.antt =====
-- The small deployment as `create_app` builds it, with overlapping requests.
use model_route.App.{App, Given, create_app, app_of, configured, shared_database, wired}
use model_route.App.Serving.{Serves, serve, create_app-Serves}
use model_route.Base.{ℕ, ◌≡◌, refl, true, false, none, some, [], ◌∷◌}
use model_route.Base.Float.{millionths}
use model_route.Base.Unicode.{ascii}
use model_route.Examples.{test_host, good_provider, slow_provider, empty_world, test_host-IsRedis}
use model_route.Examples.Completions.{ann, ann_is_new}
use model_route.Examples.Overlaps.{overlapping, any_IsApart}
use model_route.Examples.Setup.{settings, settings_are_valid, silent, parse, print}
use model_route.Gateway.Credit.{IsApart}
use model_route.Gateway.Threads.{All-Comes}
use model_route.Runtime.{ok}

-- The metrics service is given, and two providers.
abbrev metrics_given : Given
metrics_given = record { redis_client = false; database = false; metrics_service = true }

abbrev app : App ℕ
app = app_of settings (good_provider ∷ slow_provider ∷ []) none

app_is_built :
    create_app silent silent parse print ascii settings metrics_given
      (some (good_provider ∷ slow_provider ∷ []))
    ≡ ok app
unfolding create_app configured shared_database wired
app_is_built = refl

create_app-Serves_example :
    Serves ascii test_host settings app.providers ann empty_world
      (serve test_host app ascii overlapping empty_world)
create_app-Serves_example =
    create_app-Serves ascii test_host settings silent silent parse print metrics_given
      (some (good_provider ∷ slow_provider ∷ [])) app settings_are_valid app_is_built
      test_host-IsRedis ann overlapping empty_world
      (All-Comes (IsApart test_host ascii ann) any_IsApart overlapping) ann_is_new
