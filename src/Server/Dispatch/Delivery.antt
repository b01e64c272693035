-- ===== src/Server/Dispatch/Delivery.antt =====
-- What a notification does (handleNotification of server/cmd/server/main.go) on PostgreSQL.
use jackrabbit.Base.{
  String, ℤ, string_eq, nat_eq, ◌≡◌, ◌≢◌, refl, ap, sym, subst, ◌∙◌, map, ◌⊎◌, inl, inr, true,
  false, Bool, some, List, [], ◌∷◌, arith,
}
use jackrabbit.Models.{Uuid, Command}
use jackrabbit.Results.{ok}
use text.Mathlib.TextPositions.{eq_refl}
use jackrabbit.Db.{Db, IsValid}
use jackrabbit.Db.Commands.Counting.{IsCounted, increment-IsCounted}
use jackrabbit.Db.Runners.{increment_runner_active_count}
use jackrabbit.Db.Commands.{get_command}
use jackrabbit.Db.Notify.{Engine, notification_payload}
use jackrabbit.Server.Store.{postgres}
use jackrabbit.Server.Hub.{Hub, Event, Channel, channels, offer, send, command_dispatch}
use jackrabbit.Server.Hub.Sending.{send_lem, send_closed}
use jackrabbit.Server.Dispatch.{
  World, handle_notification, notify_parts, deliver, count_dispatch, dispatch_event,
}
use jackrabbit.Server.Dispatch.Payload.{has_colon, split_notification_payload-notification_payload}

module _ (e : Engine) (w : World Db) (slug : String) (id : Uuid) (c : Command) where
  -- A payload that NotifyRunner made leads to the delivery of the command.
  delivered :
      has_colon slug ≡ false
      → e.parse_uuid (e.print_uuid id) ≡ some id
      → get_command w.store_state id ≡ ok c
      → handle_notification
          (postgres e)
          e.parse_uuid
          w
          (notification_payload slug (e.print_uuid id))
        ≡ count_dispatch (postgres e) slug (send w.hub slug (dispatch_event c)) w.store_state
  unfolding handle_notification notify_parts deliver
  delivered plain parses found =
      rw
        (
          split_notification_payload-notification_payload slug (e.print_uuid id) plain,
          notify_parts,
          parses,
          found,
        )
        refl

  was_sent :
      (p : Bool × Hub)
      → p.0 ≡ true
      → count_dispatch (postgres e) slug p w.store_state ≡ record {
        store_state = (increment_runner_active_count w.store_state slug (ℤ.pos 1)).1;
        hub = p.1;
      }
  unfolding count_dispatch
  was_sent (true, h) q = refl
  was_sent (false, h) q = absurd (ground arith)

  was_not_sent :
      channels w.hub slug ≡ []
      → count_dispatch (postgres e) slug (send w.hub slug (dispatch_event c)) w.store_state ≡ w
  unfolding count_dispatch
  was_not_sent q = rw (send_closed w.hub slug (dispatch_event c) q) refl

  counted :
      (cs : List Channel)
      → channels w.hub slug ≡ cs
      → let w' =
          count_dispatch (postgres e) slug (send w.hub slug (dispatch_event c)) w.store_state in
        ((channels w.hub slug ≡ []) × (w' ≡ w))
        ⊎ ((channels w.hub slug ≢ [])
            × (w'.hub ≡ (send w.hub slug (dispatch_event c)).1)
            × (w'.store_state ≡ (increment_runner_active_count w.store_state slug (ℤ.pos 1)).1))
  counted [] q = inl (q, was_not_sent q)
  counted (ch ∷ cs) q =
      let open_stream : channels w.hub slug ≢ [] = λ h. cc (h, q) in
      let sent =
        was_sent (send w.hub slug (dispatch_event c))
          ((send_lem w.hub slug (dispatch_event c)).0.1 open_stream) in
      inr (open_stream, ap (λ v. v.hub) sent, ap (λ v. v.store_state) sent)

-- What Send offers to the channels of its slug.
pub sent_channels :
    (h : Hub) (slug : String) (e : Event)
    → channels (send h slug e).1 slug ≡ map (offer e) (channels h slug)
unfolding offer
sent_channels h slug e = (send_lem h slug e).1 slug ∙ rw (eq_refl slug) refl

-- The outcome in the code's own calls.
pub handle_notification_outcome :
    (e : Engine) (w : World Db) (slug : String) (id : Uuid) (c : Command)
    → has_colon slug ≡ false
    → e.parse_uuid (e.print_uuid id) ≡ some id
    → get_command w.store_state id ≡ ok c
    → let w' =
        handle_notification
          (postgres e)
          e.parse_uuid
          w
          (notification_payload slug (e.print_uuid id)) in
      ((channels w.hub slug ≡ []) × (w' ≡ w))
      ⊎ ((channels w.hub slug ≢ [])
          × (w'.hub ≡ (send w.hub slug (dispatch_event c)).1)
          × (w'.store_state ≡ (increment_runner_active_count w.store_state slug (ℤ.pos 1)).1))
handle_notification_outcome e w slug id c plain parses found =
    rw (delivered e w slug id c plain parses found)
      (counted e w slug id c (channels w.hub slug) refl)

-- The notification that NotifyRunner sends for a command. Where no stream of the runner is open it
-- changes nothing. Otherwise the command is offered to every stream of the runner, and, where keys are
-- distinct, the count of active commands of a runner of this slug goes up by one, if that fits its
-- column; if it does not, or there is no such runner, the database is as it was. No command's row
-- changes. The slug must have no colon, and the identifier must be read back from its text.
pub handle_notification_lem :
    (e : Engine) (w : World Db) (slug : String) (id : Uuid) (c : Command)
    → IsValid w.store_state
    → has_colon slug ≡ false
    → e.parse_uuid (e.print_uuid id) ≡ some id
    → get_command w.store_state id ≡ ok c
    → let w' =
        handle_notification
          (postgres e)
          e.parse_uuid
          w
          (notification_payload slug (e.print_uuid id)) in
      ((channels w.hub slug ≡ []) × (w' ≡ w))
      ⊎ ((channels w.hub slug ≢ [])
          × (channels w'.hub slug
              ≡ map (offer (command_dispatch c.id c.payload c.timeout_secs)) (channels w.hub slug))
          × IsCounted w.store_state slug w'.store_state)
handle_notification_lem e w slug id c v plain parses found =
    elim (handle_notification_outcome e w slug id c plain parses found) [
      | inl shut ↦ inl shut
      | inr (opened, sent, counted) ↦ inr (
        opened,
        ap (λ h. channels h slug) sent ∙ sent_channels w.hub slug (dispatch_event c),
        subst (IsCounted w.store_state slug) (sym counted)
            (increment-IsCounted w.store_state slug v),
      )
    ]
