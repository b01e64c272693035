-- ===== src/Client/Startup.antt =====
-- client/internal/runner/lifecycle.go: New, register, the main loop of Start, and deregister.
pub mod Ending
use jackrabbit.Base.{String, Bool, true, false, Option, none, some, List, [], ◌∷◌}
use jackrabbit.Models.{Time, Payload}
use jackrabbit.Sdk
use jackrabbit.Sdk.{Client, Network, Outcome, done, failed}
use jackrabbit.Sdk.Requests.{RunnerConfig, register_runner, deregister_runner}
use jackrabbit.Client.Config.{Config}
use jackrabbit.Client.Executor.{Start}
use jackrabbit.Client.Listener.{CommandEvent}
use jackrabbit.Client.Lifecycle.{Runner, handle_command_event}
use jackrabbit.Client.Lifecycle.Limits.{Step, step}

-- The client that New makes.
unfoldable pub sdk_client : Config → Client
unfolding Sdk.new
sdk_client cfg = Sdk.new cfg.server_url (Sdk.with_token cfg.api_token ∷ [])

unfoldable pub new_runner : Config → Runner
new_runner cfg = record {
  max_concurrency = cfg.max_concurrency;
  executor = [];
  active_command = "";
  log_seq = [];
  shipped = [];
  reported = [];
}

unfoldable pub register : Network → Config → Outcome Payload
unfolding sdk_client register_runner
register net cfg = register_runner net (sdk_client cfg) (record {
  slug = cfg.runner_slug;
  name = cfg.runner_name;
  tags = cfg.runner_tags;
  concurrency_limit = cfg.max_concurrency;
  gpu_capable = cfg.gpu_capable;
})

-- An error is only logged.
unfoldable pub deregister : Network → Config → Outcome Payload
unfolding sdk_client deregister_runner
deregister net cfg = deregister_runner net (sdk_client cfg) cfg.runner_slug

-- What the main loop's select takes up, and what the other goroutines do meanwhile.
pub data Happening : Type 0 where
  context_done channel_closed : Happening
  arrives : Start → Time → CommandEvent → Happening
  meanwhile : Step → Happening

pub data StartError : Type 0 where
  not_registered : Sdk.Error → StartError
  canceled connection_lost : StartError

-- The runner, whether it has asked to be deregistered, and the error with which Start returned.
pub record Run : Type 0 where
  pub runner : Runner
  pub deregistered : Bool
  pub ended : Option StartError

unfoldable pub main_loop : Runner → List Happening → Run
unfolding handle_command_event step
main_loop r [] = record { runner = r; deregistered = false; ended = none }
main_loop r (context_done ∷ hs) = record { runner = r; deregistered = true; ended = some canceled }
main_loop r (channel_closed ∷ hs) = record {
  runner = r;
  deregistered = false;
  ended = some connection_lost;
}
main_loop r (arrives start now event ∷ hs) = main_loop (handle_command_event start now event r) hs
main_loop r (meanwhile s ∷ hs) = main_loop (step r s) hs

start_registered : Config → List Happening → Outcome Payload → Run
unfolding new_runner main_loop
start_registered cfg hs (failed e) = record {
  runner = new_runner cfg;
  deregistered = false;
  ended = some (not_registered e);
}
start_registered cfg hs (done runner) = main_loop (new_runner cfg) hs

unfoldable pub start : Network → Config → List Happening → Run
unfolding start_registered register
start net cfg hs = start_registered cfg hs (register net cfg)
