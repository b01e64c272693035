-- ===== src/Db/Commands.antt =====
-- The command operations of server/internal/store/postgres/store.go.
pub mod Claim
pub mod Lookup
pub mod Queue
pub mod Serving
pub mod Updates
pub mod Status
pub mod Insert
pub mod Expiry
pub mod Counting
pub mod Conservation
use jackrabbit.Base.{
  ℕ, String, nat_eq, string_eq, ℤ, fits_int4, leb, ◌==◌, if◌then◌else◌, Bool, true, false, not,
  ◌&&◌, ◌||◌, any_of, Option, none, some, List, [], ◌∷◌, ◌++◌,
}
use jackrabbit.Models.{Time, Uuid, Runner, Command, UpdateCommandOpts}
use jackrabbit.Results.{Result, ok, err, not_found, failed}
use jackrabbit.Table
use jackrabbit.Db.State.{Db, before, after, is_null, coalesce, has_slug, has_id}
use jackrabbit.Db.Runners.{or_not_found, found_rows}

-- The new row: the columns that the INSERT leaves out take their defaults.
unfoldable pub inserted : Db → Uuid → Command → Command
inserted db id cmd = record {
  id = id;
  target_type = cmd.target_type;
  target_value = cmd.target_value;
  payload = cmd.payload;
  status = cmd.status;
  assigned_runner = none;
  retry_count = ℤ.pos 0;
  max_retries = cmd.max_retries;
  timeout_secs = cmd.timeout_secs;
  exit_code = none;
  error_message = none;
  kill_requested_at = none;
  deadline = cmd.deadline;
  created_at = db.now;
  claimed_at = none;
  started_at = none;
  finished_at = none;
}

-- `id` is what gen_random_uuid() gives. The primary key refuses one that is taken. The command that
-- Go builds from the RETURNING columns and the argument has the fields of the row.
unfoldable pub insert_command : Db → Uuid → Command → Result Command × Db
unfolding inserted
insert_command db id cmd =
    if fits_int4 cmd.max_retries
      && fits_int4 cmd.timeout_secs
      && Table.affected (has_id id) db.commands == 0
    then (ok (inserted db id cmd), record db { commands = db.commands ++ inserted db id cmd ∷ [] })
    else (err (failed "insert command"), db)

unfoldable pub targets : String → List String → Command → Bool
unfolding any_of
targets slug tags c =
    (c.target_type == "slug" && c.target_value == slug)
    || (c.target_type == "tag" && any_of tags c.target_value)

-- The WHERE clause of the claim, and SKIP LOCKED.
unfoldable pub claimable : Db → String → List String → Command → Bool
unfolding targets any_of
claimable db slug tags c =
    c.status == "queued"
    && targets slug tags c
    && (is_null c.deadline || after c.deadline db.now)
    && not (any_of db.locked c.id)

abbrev pub oldest_first : Command → Command → Bool
oldest_first c d = leb c.created_at d.created_at

abbrev pub next_claimable : Db → String → List String → Option Command
next_claimable db slug tags =
    Table.first (Table.sort_by oldest_first (Table.select (claimable db slug tags) db.commands))

unfoldable pub claimed_by : Db → String → Command → Command
claimed_by db slug c = record c {
  status = "claimed";
  assigned_runner = some slug;
  claimed_at = some db.now;
}

-- assigned_runner refers to the table of runners.
take_claim : Db → String → Option Command → Result Command × Db
unfolding claimed_by
take_claim db slug none = (err not_found, db)
take_claim db slug (some c) =
    if Table.affected (has_slug slug) db.runners == 0 then (err (failed "claim command"), db) else (
      ok (claimed_by db slug c),
      record db { commands = Table.update (has_id c.id) (claimed_by db slug) db.commands },
    )

unfoldable pub claim_next_command : Db → String → List String → Result Command × Db
unfolding take_claim claimable
claim_next_command db slug tags = take_claim db slug (next_claimable db slug tags)

abbrev pub fits_exit_code : Option ℤ → Bool
fits_exit_code none = true
fits_exit_code (some z) = fits_int4 z

unfoldable pub with_status : String → UpdateCommandOpts → Command → Command
with_status status opts c = record c {
  status = status;
  exit_code = coalesce opts.exit_code c.exit_code;
  error_message = coalesce opts.error_message c.error_message;
  started_at = coalesce opts.started_at c.started_at;
  finished_at = coalesce opts.finished_at c.finished_at;
}

abbrev update_commands : Db → (Command → Bool) → (Command → Command) → Db
update_commands db p f = record db { commands = Table.update p f db.commands }

unfoldable pub update_command_status :
    Db → Uuid → String → UpdateCommandOpts → Result (Unit {0}) × Db
unfolding with_status
update_command_status db id status opts =
    if fits_exit_code opts.exit_code
    then (
      found_rows (Table.affected (has_id id) db.commands),
      update_commands db (has_id id) (with_status status opts),
    )
    else (err (failed "update command status"), db)

unfoldable pub get_command : Db → Uuid → Result Command
get_command db id = or_not_found (Table.find (has_id id) db.commands)

abbrev pub is_killable : Uuid → Command → Bool
is_killable id c = c.id == id && (c.status == "claimed" || c.status == "running")

unfoldable pub set_command_kill_requested : Db → Uuid → Result (Unit {0}) × Db
set_command_kill_requested db id = (
  found_rows (Table.affected (is_killable id) db.commands),
  update_commands db (is_killable id) λ c. record c { kill_requested_at = some db.now },
)

abbrev pub fail_with : String → Time → Command → Command
fail_with message now c = record c {
  status = "failed";
  error_message = some message;
  finished_at = some now;
}

abbrev pub is_expired : Time → Command → Bool
is_expired now c = (c.status == "pending" || c.status == "running") && before c.deadline now

-- The time to compare with is the caller's; the time that is written is the database's.
unfoldable pub fail_expired_commands : Db → Time → ℕ × Db
fail_expired_commands db now = (
  Table.affected (is_expired now) db.commands,
  update_commands db (is_expired now) (fail_with "deadline exceeded" db.now),
)

abbrev pub is_away : Runner → Bool
is_away r = r.status == "offline" || r.status == "orphaned"

-- assigned_runner IN (SELECT slug FROM runners WHERE status IN …); NULL is in nothing.
unfoldable pub runner_away : Db → Option String → Bool
runner_away db none = false
runner_away db (some slug) =
    if Table.affected (λ r. has_slug slug r && is_away r) db.runners == 0 then false else true

abbrev pub is_stuck : Db → Command → Bool
is_stuck db c = c.status == "running" && runner_away db c.assigned_runner

unfoldable pub fail_stuck_commands : Db → ℕ × Db
unfolding runner_away
fail_stuck_commands db = (
  Table.affected (is_stuck db) db.commands,
  update_commands db (is_stuck db) (fail_with "runner became unavailable" db.now),
)
