-- ===== src/Server/Dispatch/Arrival.antt =====
-- A command's way to the streams of its runner: from a request (server/internal/api/handlers) by a
-- notification (server/cmd/server/main.go), or from the queue when a stream opens
-- (server/internal/api/sse/handler.go).
use jackrabbit.Base.{
  fits_int4, ◌+ℤ◌, String, ℤ, string_eq, nat_eq, ◌≡◌, ◌≢◌, refl, ap, ◌∙◌, ◌⊎◌, inl, inr, true,
  false, some, [], ◌∷◌, ◌++◌, map,
}
use jackrabbit.Models.{Uuid, Command, Runner}
use jackrabbit.Results.{ok}
use jackrabbit.Db.{Db, IsValid}
use jackrabbit.Db.Runners.{get_runner, increment_runner_active_count}
use jackrabbit.Db.Commands.{get_command, claim_next_command}
use jackrabbit.Db.Commands.Counting.{increment-IsCounted, get_command-increment_runner_active_count}
use jackrabbit.Db.Commands.Insert.{insert_row}
use jackrabbit.Db.Notify.{Engine, notification_payload, is_plain}
use jackrabbit.Server.Store.{postgres}
use jackrabbit.Server.Hub.{Hub, command_dispatch, channels, offer, send}
use jackrabbit.Server.Handlers.Commands.{CommandRequest}
use jackrabbit.Server.Handlers.Commands
use jackrabbit.Server.Handlers.Commands.Sent.{Accepted, queued_row, send_queues}
use jackrabbit.Server.Dispatch.{
  World, handle_notification, flush_queued_commands, flush_runner, flush_claimed, dispatch_event,
}
use jackrabbit.Server.Dispatch.Payload.{has_colon}
use jackrabbit.Server.Dispatch.Delivery.{handle_notification_outcome, sent_channels}
use jackrabbit.Db.Commands.Claim.{claim_next_command-ok}
use jackrabbit.Db.Commands.Queue.{claim_next_command_takes, claim_next_command-IsValid}

module _ (e : Engine) (db : Db) (hub : Hub) (id : Uuid) (req : CommandRequest) where
  abbrev pub with_command : World Db
  with_command = record {
    store_state = record db {
      commands = db.commands ++ queued_row db id req ∷ [];
      notifications =
          db.notifications ++ notification_payload req.target_value (e.print_uuid id) ∷ [];
    };
    hub = hub;
  }

  is_there :
      Accepted db id req → get_command with_command.store_state id ≡ ok (queued_row db id req)
  unfolding get_command
  is_there (t, v, good) = insert_row db id (queued_row db id req) refl good.0

  reached :
      Accepted db id req
      → has_colon req.target_value ≡ false
      → e.parse_uuid (e.print_uuid id) ≡ some id
      → channels hub req.target_value ≢ []
      → let row = queued_row db id req in
        let w' =
          handle_notification
            (postgres e)
            e.parse_uuid
            with_command
            (notification_payload req.target_value (e.print_uuid id)) in
        (channels w'.hub req.target_value
          ≡ map (offer (dispatch_event row)) (channels hub req.target_value))
        × (get_command w'.store_state id ≡ ok row)
  reached good colon parses opened =
      elim (handle_notification_outcome e with_command req.target_value id (queued_row db id req)
        colon parses (is_there good)) [
          | inl (shut, same) ↦ absurd (opened shut)
          | inr (still, sent, counted) ↦ (
            ap (λ h. channels h req.target_value) sent
                ∙ sent_channels hub req.target_value (dispatch_event (queued_row db id req)),
            ap (λ s. get_command s id) counted
                ∙ get_command-increment_runner_active_count with_command.store_state
                    req.target_value (ℤ.pos 1) id
                ∙ is_there good,
          )
        ]

-- A command that is sent to one runner, whose slug has no colon, reaches every stream that the
-- runner has open with room in its channel: the request sends a notification, and the handler of
-- that notification offers the command to the streams. The command's row is queued all the same.
-- The request must be one that is accepted, its payload for the notification must have no quote and
-- not be too long, and the identifier must be read back from its text.
pub handle_notification-send :
    (e : Engine) (db : Db) (hub : Hub) (id : Uuid) (req : CommandRequest)
    → Accepted db id req
    → (req.target_type ≡ "slug") ⊎ (req.target_type ≡ "runner")
    → is_plain (notification_payload req.target_value (e.print_uuid id)) ≡ true
    → has_colon req.target_value ≡ false
    → e.parse_uuid (e.print_uuid id) ≡ some id
    → channels hub req.target_value ≢ []
    → let db' = (Commands.send (postgres e) id db (some req)).1 in
      let payload = notification_payload req.target_value (e.print_uuid id) in
      let w' =
        handle_notification
          (postgres e)
          e.parse_uuid
          (record { store_state = db'; hub = hub })
          payload in
      let row = queued_row db id req in
      (db'.notifications ≡ db.notifications ++ payload ∷ [])
      × (channels w'.hub req.target_value
          ≡ map
              (offer (command_dispatch id req.payload row.timeout_secs))
              (channels hub req.target_value))
      × (get_command w'.store_state id ≡ ok row)
handle_notification-send e db hub id req good one plain colon parses opened =
    let (arrived, row) = reached e db hub id req good colon parses opened in
    rw (send_queues e db id req good one plain) (refl, arrived, row)

module _ (e : Engine) (w : World Db) (slug : String) (r : Runner) (c : Command) where
  abbrev claimed_state : Db
  claimed_state = (claim_next_command w.store_state slug r.tags).1

  flushed :
      get_runner w.store_state slug ≡ ok r
      → (claim_next_command w.store_state slug r.tags).0 ≡ ok c
      → flush_queued_commands (postgres e) w slug ≡ record {
        store_state = (increment_runner_active_count claimed_state slug (ℤ.pos 1)).1;
        hub = (send w.hub slug (dispatch_event c)).1;
      }
  unfolding flush_queued_commands flush_runner flush_claimed
  flushed found claimed = rw (found, flush_runner, claimed) refl

  same_runner :
      (claim_next_command w.store_state slug r.tags).0 ≡ ok c
      → (get_runner claimed_state slug ≡ get_runner w.store_state slug)
        × (claimed_state.now ≡ w.store_state.now)
  unfolding get_runner
  same_runner claimed =
      let (_, _, _, next) = claim_next_command-ok w.store_state slug r.tags c claimed in
      (ap (λ d. get_runner d slug) next, ap (λ d. d.now) next)

-- The flush of the queue for a runner that is registered and for which a command can be claimed, where
-- keys are distinct: the command that is claimed is offered to all streams that the runner has open by
-- then; its row is the claimed one; and the runner's count of active commands goes up by one, or stays
-- if that does not fit its column.
pub flush_queued_commands_lem :
    (e : Engine) (w : World Db) (slug : String) (r : Runner) (c : Command)
    → IsValid w.store_state
    → get_runner w.store_state slug ≡ ok r
    → (claim_next_command w.store_state slug r.tags).0 ≡ ok c
    → let w' = flush_queued_commands (postgres e) w slug in
      (channels w'.hub slug
        ≡ map (offer (command_dispatch c.id c.payload c.timeout_secs)) (channels w.hub slug))
      × (get_command w'.store_state c.id ≡ ok c)
      × (((fits_int4 (r.active_count +ℤ ℤ.pos 1) ≡ true)
            × (get_runner w'.store_state slug
                ≡ ok (record r {
                  active_count = r.active_count +ℤ ℤ.pos 1;
                  updated_at = w.store_state.now;
                })))
          ⊎ ((fits_int4 (r.active_count +ℤ ℤ.pos 1) ≡ false)
              × (get_runner w'.store_state slug ≡ ok r)))
flush_queued_commands_lem e w slug r c v found claimed =
    let db' = claimed_state e w slug r c in
    let (same, at) = same_runner e w slug r c claimed in
    let (_, _, _, _, _, row, _) = claim_next_command_takes w.store_state slug r.tags c v claimed in
    let (known, _, commands) =
      increment-IsCounted db' slug (claim_next_command-IsValid w.store_state slug r.tags v) in
    rw (flushed e w slug r c found claimed) (
      sent_channels w.hub slug (dispatch_event c),
      commands c.id ∙ row,
      elim (known r (same ∙ found)) [
        | inl (fits, more) ↦ inl (
          fits,
          more
              ∙ ap (λ t. ok (record r { active_count = r.active_count +ℤ ℤ.pos 1; updated_at = t }))
                  at,
        )
        | inr (full, still) ↦ inr (full, ap (λ d. get_runner d slug) still ∙ same ∙ found)
      ],
    )
