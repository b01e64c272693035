-- ===== src/Server/Handlers/Commands/Answered.antt =====
-- Send of server/internal/api/handlers/commands.go on PostgreSQL: every answer, and what is then in the
-- database.
use text.Mathlib.TextEquality.{eq_iff}
use mathlib.Core.List.{append-nil}
use jackrabbit.Base.{
  String, string_eq, ◌==◌, ◌||◌, ◌≡◌, refl, sym, ap, subst, ◌∙◌, ◌⊎◌, inl, inr, true, Option, none,
  some, List, [], ◌∷◌, ◌++◌, Memᴰ, Bool-cases, arith,
}
use jackrabbit.Models.{Uuid, Runner}
use jackrabbit.Results.{ok}
use jackrabbit.Db.{Db}
use jackrabbit.Db.Notify.{Engine, notification_payload, is_plain}
use jackrabbit.Server.Store.{postgres}
use jackrabbit.Server.Http.{respond, command}
use jackrabbit.Server.Handlers.Commands.{
  CommandRequest, with_timeout, send, dispatch_created, notify_least_busy, least_busy,
}
use jackrabbit.Server.Handlers.Commands.Sent.{
  Accepted, queued_row, with_row, send-Accepted, plain_sent, accepted_one, outcome,
}
use jackrabbit.Server.Handlers.Commands.Tagged.{online, tag_dispatch, wanted, chosen_listed}

module _ (e : Engine) (db : Db) (id : Uuid) (req : CommandRequest)
    (plain : is_plain (notification_payload req.target_value (e.print_uuid id)) ≡ true)
    (each : (r : Runner)
      → Memᴰ r db.runners
      → is_plain (notification_payload r.slug (e.print_uuid id)) ≡ true) where
  -- The queue has the row, and payloads may have been sent.
  abbrev Queued : Db → Type 0
  Queued db' =
      (sent : List String) × (db' ≡ record db {
        commands = db.commands ++ queued_row db id req ∷ [];
        notifications = db.notifications ++ sent;
      })

  none_sent : Queued (with_row e db id req)
  none_sent =
      ([], ap (λ ns. record (with_row e db id req) { notifications = ns }) (sym (append-nil _)))

  tag-Queued :
      (rs : List Runner)
      → online e db id req ≡ rs
      → Queued (notify_least_busy (postgres e) (ok rs, with_row e db id req) id)
  unfolding notify_least_busy
  tag-Queued [] q = none_sent
  tag-Queued (r ∷ rs) q =
      let best = least_busy r (r ∷ rs) in
      let listed : Memᴰ best (online e db id req) =
        subst (Memᴰ best) (sym q) (chosen_listed e db id req r rs) in
      (_, plain_sent e db id req best.slug (each best ((wanted e db id req best).0 listed).0))

  dispatch_created-Queued :
      Queued (dispatch_created (postgres e) (with_row e db id req) (with_timeout req) id)
  dispatch_created-Queued =
      elim (Bool-cases (req.target_type == "slug" || req.target_type == "runner")) [
        | inl t ↦ (
          _,
          accepted_one e db id req
              (ground (arith, t, eq_iff req.target_type "slug", eq_iff req.target_type "runner"))
              plain,
        )
        | inr f ↦ elim (Bool-cases (req.target_type == "tag")) [
          | inl u ↦
              subst Queued (sym (tag_dispatch e db id req ((eq_iff req.target_type "tag").0 u)))
                (tag-Queued (online e db id req) refl)
          | inr g ↦ unfold dispatch_created in rw (f, g) none_sent
        ]
      ]

-- A request is either accepted: then it is answered with its row, the row stands behind the queue, and
-- nothing else has changed but that notifications may have been sent. Or it is refused with the status
-- 400 or 500, and then the database is as it was. No payload for its target or for a runner may have a
-- quote or be too long.
pub send_answers :
    (e : Engine) (db : Db) (id : Uuid) (body : Option CommandRequest)
    → ((req : CommandRequest)
        → body ≡ some req
        → is_plain (notification_payload req.target_value (e.print_uuid id)) ≡ true)
    → ((r : Runner)
        → Memᴰ r db.runners
        → is_plain (notification_payload r.slug (e.print_uuid id)) ≡ true)
    → let (response, db') = send (postgres e) id db body in
      ((req : CommandRequest) × (body ≡ some req)
        × Accepted db id req
        × (response ≡ respond 200 (command (queued_row db id req)))
        × ((sent : List String) × (db' ≡ record db {
          commands = db.commands ++ queued_row db id req ∷ [];
          notifications = db.notifications ++ sent;
        })))
      ⊎ (((response.status ≡ 400) ⊎ (response.status ≡ 500)) × (db' ≡ db))
send_answers e db id none plain each = unfold send in inr (inl refl, refl)
send_answers e db id (some req) plain each = elim (outcome e db id req) [
  | inl good ↦
      let answered = send-Accepted e db id req good in
      let (sent, same) = dispatch_created-Queued e db id req (plain req refl) each in
      inl (req, refl, good, ap (λ p. p.0) answered, (sent, ap (λ p. p.1) answered ∙ same))
  | inr (status, message, code, same) ↦ inr (rw same (code, refl))
]
