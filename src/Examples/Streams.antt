-- ===== src/Examples/Streams.antt =====
-- The hub of server/internal/api/sse/hub.go and the choice of a runner in
-- server/internal/api/handlers/commands.go at concrete inputs.
use jackrabbit.Base.{◌≡◌, ◌≢◌, ◌≤◌, All, List, [], ◌∷◌, true, arith, string_eq, length}
use jackrabbit.Server.Hub.{Hub, Channel, ping, channels, new_hub, send}
use jackrabbit.Server.Hub.Sending.{send_lem}
use jackrabbit.Server.Hub.Lifetime.{IsValid}
use jackrabbit.Server.Hub.Streams.{
  Action, registers, unregisters, sends, receives, run, run-IsValid,
}

abbrev one_stream : Channel
one_stream = record { id = 0; events = [] }

abbrev full : Channel
full = record {
  id = 1;
  events = ping ∷ ping ∷ ping ∷ ping ∷ ping ∷ ping ∷ ping ∷ ping ∷ ping ∷ ping ∷ [];
}

abbrev hub : Hub
hub = record {
  connections = ("alpha", one_stream ∷ []) ∷ ("beta", full ∷ []) ∷ [];
  next_channel = 2;
}

open-alpha : channels hub "alpha" ≢ []
unfolding channels jackrabbit.Dict.lookup
open-alpha e = cc

open-beta : channels hub "beta" ≢ []
unfolding channels jackrabbit.Dict.lookup
open-beta e = cc

full-beta : All (λ c. 10 ≤ length c.events) (channels hub "beta")
unfolding channels jackrabbit.Dict.lookup
full-beta = (omega arith, tt)

hub-IsValid : IsValid hub
hub-IsValid = record {
  entries = (
    ((λ e. cc), ((omega arith, omega arith), tt)),
    (((λ e. cc), ((omega arith, omega arith), tt)), tt),
  );
}

send_lem_example : (send hub "alpha" ping).0 ≡ true
send_lem_example = (send_lem hub "alpha" ping).0.1 open-alpha

abbrev actions : List Action
actions =
    registers "alpha"
    ∷ registers "alpha"
    ∷ sends "alpha" ping
    ∷ receives "alpha" 1
    ∷ unregisters "alpha" 0
    ∷ []

run-IsValid_example : IsValid (run new_hub actions)
run-IsValid_example = run-IsValid actions
