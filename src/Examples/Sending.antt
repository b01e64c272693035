-- ===== src/Examples/Sending.antt =====
-- Requests of server/internal/api/handlers/commands.go and notifications of
-- server/cmd/server/main.go at concrete inputs.
use jackrabbit.Base.{
  ℤ, ◌≡◌, ◌≢◌, ◌⊎◌, refl, some, none, Option, [], ◌∷◌, ◌++◌, Memᴰ, true, false, String,
}
use jackrabbit.Table
use jackrabbit.Models.{Runner}
use jackrabbit.Results.{ok}
use jackrabbit.Db.{Db}
use jackrabbit.Db.Commands.{get_command, claim_next_command}
use jackrabbit.Db.Notify.{notification_payload, has_quote, is_plain}
use jackrabbit.Server.Store.{postgres}
use jackrabbit.Server.Http.{respond, command}
use jackrabbit.Server.Hub.{channels, offer, command_dispatch, new_hub, register}
use jackrabbit.Server.Handlers.Commands.{CommandRequest, send, queued_command}
use jackrabbit.Server.Handlers.Commands.Sent.{Accepted, queued_row}
use jackrabbit.Server.Handlers.Commands.Answered.{send_answers}
use jackrabbit.Base.{subst, some-injective, List, map}
use jackrabbit.Db.Commands.Counting.{IsCounted}
use jackrabbit.Server.Handlers.Commands.Tagged.{IsNotified, send_notifies_least_busy}
use jackrabbit.Server.Dispatch.{World, handle_notification}
use jackrabbit.Server.Dispatch.Payload.{has_colon}
use jackrabbit.Server.Dispatch.Delivery.{handle_notification_lem}
use jackrabbit.Server.Dispatch.Redelivery.{claim_next_command-handle_notification}
use jackrabbit.Examples.Samples.{engine, db, db-IsValid, to_alpha}

abbrev request : String → String → CommandRequest
request target_type target_value = record {
  target_type = target_type;
  target_value = target_value;
  payload = [];
  max_retries = ℤ.pos 0;
  timeout_secs = ℤ.pos 0;
  deadline = none;
}

accepted : (t v : String) → t ≢ "" → v ≢ "" → Accepted db 9 (request t v)
unfolding get_command Table.find queued_command
accepted t v p q = (p, q, (refl, refl, refl))

plain-alpha : is_plain (notification_payload "alpha" "2") ≡ true
unfolding has_quote notification_payload
plain-alpha = refl

plain-beta : is_plain (notification_payload "beta" "2") ≡ true
unfolding has_quote notification_payload
plain-beta = refl

all_plain : (r : Runner) → Memᴰ r db.runners → is_plain (notification_payload r.slug "2") ≡ true
all_plain r (Memᴰ.head q) = rw q plain-alpha
all_plain r (Memᴰ.tail (Memᴰ.head q)) = rw q plain-beta
all_plain r (Memᴰ.tail (Memᴰ.tail m)) = elim m [ ]

plain_slug :
    (req : CommandRequest)
    → ◌≡◌ {A = Option CommandRequest} (some (request "slug" "alpha")) (some req)
    → is_plain (notification_payload req.target_value "2") ≡ true
plain_slug req q =
    subst (λ (r : CommandRequest). is_plain (notification_payload r.target_value "2") ≡ true)
      (some-injective q) plain-alpha

send_answers_example :
    let (response, db') = send (postgres engine) 9 db (some (request "slug" "alpha")) in
    ((req : CommandRequest) × (◌≡◌ {A = Option CommandRequest}
        (some (request "slug" "alpha"))
        (some req))
      × Accepted db 9 req
      × (response ≡ respond 200 (command (queued_row db 9 req)))
      × ((sent : List String) × (db' ≡ record db {
        commands = db.commands ++ queued_row db 9 req ∷ [];
        notifications = db.notifications ++ sent;
      })))
    ⊎ (((response.status ≡ 400) ⊎ (response.status ≡ 500)) × (db' ≡ db))
send_answers_example = send_answers engine db 9 (some (request "slug" "alpha")) plain_slug all_plain

send_notifies_least_busy_example :
    let (response, db') = send (postgres engine) 9 db (some (request "tag" "gpu")) in
    (response ≡ respond 200 (command (queued_row db 9 (request "tag" "gpu"))))
    × (db'.commands ≡ db.commands ++ queued_row db 9 (request "tag" "gpu") ∷ [])
    × IsNotified engine db 9 "gpu" db'
send_notifies_least_busy_example =
    send_notifies_least_busy engine db 9 (request "tag" "gpu")
      (accepted "tag" "gpu" (λ e. cc) (λ e. cc)) refl all_plain

no_colon : has_colon "alpha" ≡ false
unfolding has_colon
no_colon = refl

abbrev world : World Db
world = record { store_state = db; hub = (register new_hub "alpha").1 }

get-to_alpha : get_command db 1 ≡ ok to_alpha
unfolding get_command Table.find
get-to_alpha = refl

handle_notification_lem_example :
    let w' =
      handle_notification
        (postgres engine)
        engine.parse_uuid
        world
        (notification_payload "alpha" "1") in
    ((channels world.hub "alpha" ≡ []) × (w' ≡ world))
    ⊎ ((channels world.hub "alpha" ≢ [])
        × (channels w'.hub "alpha"
            ≡ map (offer (command_dispatch 1 [] (ℤ.pos 60))) (channels world.hub "alpha"))
        × IsCounted db "alpha" w'.store_state)
handle_notification_lem_example =
    handle_notification_lem engine world "alpha" 1 to_alpha db-IsValid no_colon refl get-to_alpha

claim_next_command-handle_notification_example :
    let w' =
      handle_notification
        (postgres engine)
        engine.parse_uuid
        world
        (notification_payload "alpha" "1") in
    (claim_next_command w'.store_state "alpha" []).0 ≡ (claim_next_command db "alpha" []).0
claim_next_command-handle_notification_example =
    claim_next_command-handle_notification engine world "alpha" 1 to_alpha no_colon refl
      get-to_alpha "alpha" []
