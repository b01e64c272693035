-- ===== src/Examples/Arrivals.antt =====
-- Commands on their way to a stream, and results on their way back, at concrete inputs
-- (server/internal/api and server/cmd/server/main.go).
use jackrabbit.Base.{fits_int4, ◌⊎◌, ℤ, ◌≡◌, ◌≢◌, inl, refl, some, none, [], ◌∷◌, map, true, false}
use jackrabbit.Table
use jackrabbit.Models.{Command}
use jackrabbit.Results.{ok}
use jackrabbit.Db.Runners.{get_runner}
use jackrabbit.Db.Commands.{get_command, claim_next_command}
use jackrabbit.Db.Notify.{notification_payload, has_quote, is_plain}
use jackrabbit.Server.Store.{postgres}
use jackrabbit.Server.Http.{respond, empty}
use jackrabbit.Server.Hub.{Hub, channels, offer, command_dispatch}
use jackrabbit.Server.Handlers.Commands.{CommandRequest, queued_command}
use jackrabbit.Server.Handlers.Commands
use jackrabbit.Server.Handlers.Commands.Sent.{Accepted, queued_row}
use jackrabbit.Server.Handlers.Runners.{ResultRequest, report_result}
use jackrabbit.Server.Handlers.Runners.Reports.{report_result_lem}
use jackrabbit.Server.Dispatch.{World, handle_notification, flush_queued_commands}
use jackrabbit.Server.Dispatch.Payload.{has_colon}
use jackrabbit.Server.Dispatch.Arrival.{handle_notification-send, flush_queued_commands_lem}
use jackrabbit.Db.{Db}
use jackrabbit.Examples.Samples.{engine, db, db-IsValid, alpha, to_alpha}

-- A stream of alpha is open.
abbrev hub : Hub
hub = record { connections = ("alpha", record { id = 0; events = [] } ∷ []) ∷ []; next_channel = 1 }

abbrev request : CommandRequest
request = record {
  target_type = "slug";
  target_value = "alpha";
  payload = [];
  max_retries = ℤ.pos 0;
  timeout_secs = ℤ.pos 0;
  deadline = none;
}

-- The table without its commands, so that the identifier 1 is new.
abbrev idle : Db
idle = record db { commands = [] }

request-Accepted : Accepted idle 1 request
unfolding get_command Table.find queued_command
request-Accepted = ((λ e. cc), (λ e. cc), (refl, refl, refl))

plain : is_plain (notification_payload "alpha" "1") ≡ true
unfolding has_quote notification_payload
plain = refl

no_colon : has_colon "alpha" ≡ false
unfolding has_colon
no_colon = refl

is_open : channels hub "alpha" ≢ []
unfolding channels jackrabbit.Dict.lookup
is_open e = cc

handle_notification-send_example :
    let db' = (Commands.send (postgres engine) 1 idle (some request)).1 in
    let payload = notification_payload "alpha" "1" in
    let w' =
      handle_notification
        (postgres engine)
        engine.parse_uuid
        (record { store_state = db'; hub = hub })
        payload in
    (db'.notifications ≡ payload ∷ [])
    × (channels w'.hub "alpha"
        ≡ map (offer (command_dispatch 1 [] (ℤ.pos 300))) (channels hub "alpha"))
    × (get_command w'.store_state 1 ≡ ok (queued_row idle 1 request))
handle_notification-send_example =
    handle_notification-send engine idle hub 1 request request-Accepted (inl refl) plain no_colon
      refl is_open

get-alpha : get_runner db "alpha" ≡ ok alpha
unfolding get_runner Table.find
get-alpha = refl

abbrev claimed : Command
claimed = record to_alpha {
  status = "claimed";
  assigned_runner = some "alpha";
  claimed_at = some 60;
}

claims : (claim_next_command db "alpha" alpha.tags).0 ≡ ok claimed
unfolding claim_next_command Table.select Table.update Table.sort_by Table.affected
claims = refl

abbrev world : World Db
world = record { store_state = db; hub = hub }

flush_queued_commands_lem_example :
    let w' = flush_queued_commands (postgres engine) world "alpha" in
    (channels w'.hub "alpha"
      ≡ map (offer (command_dispatch 1 [] (ℤ.pos 60))) (channels hub "alpha"))
    × (get_command w'.store_state 1 ≡ ok claimed)
    × (((fits_int4 (ℤ.pos 2) ≡ true)
          × (get_runner w'.store_state "alpha"
              ≡ ok (record alpha { active_count = ℤ.pos 2; updated_at = 60 })))
        ⊎ ((fits_int4 (ℤ.pos 2) ≡ false) × (get_runner w'.store_state "alpha" ≡ ok alpha)))
flush_queued_commands_lem_example =
    flush_queued_commands_lem engine world "alpha" alpha claimed db-IsValid get-alpha claims

abbrev report : ResultRequest
report = record {
  command_id = "1";
  status = "success";
  exit_code = some (ℤ.pos 0);
  error_message = none;
}

get-to_alpha : get_command db 1 ≡ ok to_alpha
unfolding get_command Table.find
get-to_alpha = refl

report_result_lem_example :
    let (response, db') =
      report_result (postgres engine) engine.parse_uuid 80 db "alpha" (some report) in
    (response ≡ respond 204 empty)
    × (get_command db' 1
        ≡ ok (record to_alpha {
          status = "success";
          exit_code = some (ℤ.pos 0);
          finished_at = some 80;
        }))
    × (get_runner db' "alpha" ≡ ok (record alpha { active_count = ℤ.pos 0; updated_at = 60 }))
report_result_lem_example =
    report_result_lem engine db "alpha" report 80 1 to_alpha alpha db-IsValid refl refl get-to_alpha
      get-alpha refl
