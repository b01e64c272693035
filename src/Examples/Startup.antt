-- ===== src/Examples/Startup.antt =====
-- The configurations of client/internal/config and server/internal/config, and a run of
-- client/internal/runner/lifecycle.go, at concrete inputs.
use jackrabbit.Base.{
  ℤ, ◌≤◌, pos_part, ltb_ℤ, ◌≡◌, ◌≢◌, ◌↔◌, refl, some, [], ◌∷◌, true, false, length, String,
  string_eq, ◌==◌, if◌then◌else◌,
}
use jackrabbit.Models.{text}
use jackrabbit.Sdk.{Network, done}
use jackrabbit.Client.Config.{Config, get_env_as_int_or_default}
use jackrabbit.Client.Config.Loading.{load_accepts}
use jackrabbit.Client.Executor.{started}
use jackrabbit.Client.Listener.{CommandEvent}
use jackrabbit.Client.Startup.{
  canceled, context_done, channel_closed, arrives, canceled, register, start,
}
use jackrabbit.Base.{none, List}
use jackrabbit.Results.{ok}
use jackrabbit.Client.Config.{load}
use jackrabbit.Client.Startup.{Happening}
use jackrabbit.Client.Program.{Wake, Cleanup, run_runner}
use jackrabbit.Client.Startup.Ending.{start_within_limit, start_deregisters}

-- An environment with a slug, and a concurrency that is no number.
abbrev env : String → String
env key =
    if key == "CLIENT_RUNNER_SLUG"
    then "alpha"
    else if key == "CLIENT_MAX_CONCURRENCY"
    then "many"
    else ""

slug_is_given : env "CLIENT_RUNNER_SLUG" ≢ ""
slug_is_given h = cc

has_room :
    ltb_ℤ (get_env_as_int_or_default env "CLIENT_MAX_CONCURRENCY" (ℤ.pos 4)) (ℤ.pos 1) ≡ false
unfolding get_env_as_int_or_default
has_room = refl

abbrev config : Config
config = (load_accepts env slug_is_given has_room).0

abbrev registering : Network
registering = record {
  marshal = λ fields. some "{}";
  as_object = λ s. some [];
  as_objects = λ s. some [];
  can_request = λ method url. true;
  send = λ r. some (record { status = 201; body = "{}" });
}

abbrev first : CommandEvent
first = record { command_id = "7"; payload = ("cmd", text "true") ∷ []; timeout_secs = ℤ.pos 5 }

registers : register registering config ≡ done (some [])
unfolding register
registers = refl

start_within_limit_example :
    length (start registering config (arrives started 50 first ∷ [])).runner.executor
    ≤ pos_part config.max_concurrency
start_within_limit_example = start_within_limit registering config (arrives started 50 first ∷ [])

start_deregisters_example :
    let run = start registering config (channel_closed ∷ context_done ∷ []) in
    (run.deregistered ≡ true) ↔ (run.ended ≡ some canceled)
start_deregisters_example =
    start_deregisters registering config (channel_closed ∷ context_done ∷ [])

is_loaded : load env ≡ ok config
is_loaded = (load_accepts env slug_is_given has_room).1

abbrev so_far : List Happening
so_far = arrives started 50 first ∷ []

still_running : (start registering config so_far).ended ≡ none
unfolding start
still_running = refl

-- An interrupted run leaves without an error, whichever case the inner select takes.
interrupted_without_error :
    (run_runner env registering so_far
      (Wake.interrupted (context_done ∷ []) Cleanup.start_ended)).error
    ≡ none
unfolding run_runner load
interrupted_without_error = refl
