-- ===== src/Server/Handlers/Commands/Sent.antt =====
-- Send of server/internal/api/handlers/commands.go on PostgreSQL: what a request leaves in the
-- queue, and who is notified.
use text.Mathlib.TextEquality.{eq_iff}
use jackrabbit.Base.{
  ℕ, String, ℤ, string_eq, is_zero, ◌==◌, if◌then◌else◌, ◌≡◌, ◌≢◌, refl, ap, ◌∙◌, ◌⊎◌, inl, inr,
  true, false, none, some, [], ◌∷◌, ◌++◌, arith, Bool-cases, ◌||◌,
}
use jackrabbit.Models.{Uuid, Command}
use jackrabbit.Results.{err, failed}
use jackrabbit.Db.{Db}
use jackrabbit.Db.Commands.{insert_command, inserted}
use jackrabbit.Db.Commands.Insert.{Insertable, insert_taken, insert_outcome}
use jackrabbit.Db.Notify.{Engine, notification_payload, is_plain, notify_runner, send_payload}
use jackrabbit.Server.Store.{postgres}
use jackrabbit.Server.Http.{respond, command, write_error}
use jackrabbit.Server.Handlers.Commands.{
  CommandRequest, with_timeout, queued_command, send, create, created_response, dispatch_created,
}

-- The row of an accepted request.
abbrev pub queued_row : Db → Uuid → CommandRequest → Command
queued_row db id req = record {
  id = id;
  target_type = req.target_type;
  target_value = req.target_value;
  payload = req.payload;
  status = "queued";
  assigned_runner = none;
  retry_count = ℤ.pos 0;
  max_retries = req.max_retries;
  timeout_secs = if is_zero req.timeout_secs then ℤ.pos 300 else req.timeout_secs;
  exit_code = none;
  error_message = none;
  kill_requested_at = none;
  deadline = req.deadline;
  created_at = db.now;
  claimed_at = none;
  started_at = none;
  finished_at = none;
}

abbrev pub Accepted : Db → Uuid → CommandRequest → Type 0
Accepted db id req =
    (req.target_type ≢ "")
    × (req.target_value ≢ "")
    × Insertable db id (queued_command (with_timeout req))

module _ (e : Engine) (db : Db) (id : Uuid) (req : CommandRequest) where
  abbrev pub with_row : Db
  with_row = record db { commands = db.commands ++ queued_row db id req ∷ [] }

  -- An accepted request is answered with the row that it adds, and then dispatched.
  pub send-Accepted :
      Accepted db id req
      → send (postgres e) id db (some req) ≡ (
        respond 200 (command (queued_row db id req)),
        dispatch_created (postgres e) with_row (with_timeout req) id,
      )
  unfolding send create created_response inserted queued_command
  send-Accepted (t, v, good) =
      rw (no_test "" req.target_type t, no_test "" req.target_value v, insert_taken db id _ good)
        refl
    where
      no_test : (a b : String) → b ≢ a → (b == a) ≡ false
      no_test a b ne = ground (arith, eq_iff b a)

  pub plain_sent :
      (slug : String)
      → is_plain (notification_payload slug (e.print_uuid id)) ≡ true
      → (notify_runner e with_row slug id).1 ≡ record with_row {
        notifications = db.notifications ++ notification_payload slug (e.print_uuid id) ∷ [];
      }
  unfolding notify_runner send_payload
  plain_sent slug plain = rw plain refl

  pub accepted_one :
      (req.target_type ≡ "slug") ⊎ (req.target_type ≡ "runner")
      → is_plain (notification_payload req.target_value (e.print_uuid id)) ≡ true
      → dispatch_created (postgres e) with_row (with_timeout req) id ≡ record with_row {
        notifications =
            db.notifications ++ notification_payload req.target_value (e.print_uuid id) ∷ [];
      }
  unfolding dispatch_created
  accepted_one one plain = rw (to_one one) (plain_sent req.target_value plain)
    where
      to_one :
          (req.target_type ≡ "slug") ⊎ (req.target_type ≡ "runner")
          → (req.target_type == "slug" || req.target_type == "runner") ≡ true
      to_one h = ground (arith, eq_iff req.target_type "slug", eq_iff req.target_type "runner")

  abbrev pub Refused : Type 0
  Refused =
      (status : ℕ) × (message : String) × ((status ≡ 400) ⊎ (status ≡ 500))
      × (send (postgres e) id db (some req) ≡ (write_error status message, db))

  without_target : (req.target_type == "" || req.target_value == "") ≡ true → Refused
  unfolding send
  without_target h = (400, "target_type and target_value are required", inl refl, rw h refl)

  not_stored :
      (req.target_type == "" || req.target_value == "") ≡ false
      → insert_command db id (queued_command (with_timeout req))
        ≡ (err (failed "insert command"), db)
      → Refused
  unfolding send create created_response
  not_stored h bad = (500, "failed to create command", inr refl, rw (h, bad) refl)

  pub outcome : Accepted db id req ⊎ Refused
  outcome = elim (Bool-cases (req.target_type == "" || req.target_value == "")) [
    | inl t ↦ inr (without_target t)
    | inr f ↦ elim (insert_outcome db id (queued_command (with_timeout req))) [
      | inl good ↦ inl (
        ground (arith, eq_iff req.target_type ""),
        ground (arith, eq_iff req.target_value ""),
        good,
      )
      | inr bad ↦ inr (not_stored f bad)
    ]
  ]

-- A request for one runner, by its slug, is answered with the row that it appends to the queue, and
-- the runner is notified of it, if the request has a target, its numbers fit their columns, the
-- identifier is new, and the payload of the notification has no quote and is not too long.
pub send_queues :
    (e : Engine) (db : Db) (id : Uuid) (req : CommandRequest)
    → Accepted db id req
    → (req.target_type ≡ "slug") ⊎ (req.target_type ≡ "runner")
    → is_plain (notification_payload req.target_value (e.print_uuid id)) ≡ true
    → send (postgres e) id db (some req) ≡ (
      respond 200 (command (queued_row db id req)),
      record db {
        commands = db.commands ++ queued_row db id req ∷ [];
        notifications =
            db.notifications ++ notification_payload req.target_value (e.print_uuid id) ∷ [];
      },
    )
send_queues e db id req good one plain =
    send-Accepted e db id req good
    ∙ ap (λ s. (respond 200 (command (queued_row db id req)), s))
        (accepted_one e db id req one plain)
