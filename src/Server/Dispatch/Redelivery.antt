-- ===== src/Server/Dispatch/Redelivery.antt =====
-- A command that a notification dispatched, and the queue of server/cmd/server/main.go and
-- server/internal/store/postgres/store.go.
use jackrabbit.Base.{String, ◌≡◌, ap, ◌∙◌, inl, inr, some, false, List, ℤ}
use jackrabbit.Models.{Uuid, Command}
use jackrabbit.Results.{ok}
use jackrabbit.Db.{Db}
use jackrabbit.Db.Commands.{get_command, claim_next_command}
use jackrabbit.Db.Commands.Counting.{claim_next_command-increment_runner_active_count}
use jackrabbit.Db.Notify.{Engine, notification_payload}
use jackrabbit.Server.Store.{postgres}
use jackrabbit.Server.Dispatch.{World, handle_notification}
use jackrabbit.Server.Dispatch.Payload.{has_colon}
use jackrabbit.Server.Dispatch.Delivery.{handle_notification_outcome}

-- After a notification, whether the command was dispatched or not, every claim of every runner
-- answers as if there had been none: a command that was queued can be claimed again.
pub claim_next_command-handle_notification :
    (e : Engine) (w : World Db) (slug : String) (id : Uuid) (c : Command)
    → has_colon slug ≡ false
    → e.parse_uuid (e.print_uuid id) ≡ some id
    → get_command w.store_state id ≡ ok c
    → (claimer : String) (tags : List String)
    → let w' =
        handle_notification
          (postgres e)
          e.parse_uuid
          w
          (notification_payload slug (e.print_uuid id)) in
      (claim_next_command w'.store_state claimer tags).0
      ≡ (claim_next_command w.store_state claimer tags).0
claim_next_command-handle_notification e w slug id c plain parses found claimer tags =
    elim (handle_notification_outcome e w slug id c plain parses found) [
      | inl (shut, same) ↦ ap (λ v. (claim_next_command v.store_state claimer tags).0) same
      | inr (opened, hub, counted) ↦
          ap (λ s. (claim_next_command s claimer tags).0) counted
          ∙ claim_next_command-increment_runner_active_count w.store_state slug (ℤ.pos 1) claimer
              tags
    ]
