-- ===== src/Db/Commands/Status.antt =====
-- UpdateCommandStatus of server/internal/store/postgres/store.go.
use jackrabbit.Base.{
  ℕ, zero, suc, ◌≡◌, ◌≢◌, inl, inr, refl, ap, ◌∙◌, String, nat_eq, string_eq, true, false, Option,
  none, some, arith, nat_beq_iff, Bool-cases,
}
use jackrabbit.Models.{Command, Uuid, UpdateCommandOpts}
use jackrabbit.Results.{ok, err, not_found, failed}
use jackrabbit.Table
use jackrabbit.Table.Rows.{affected-find, find-affected, update_none}
use jackrabbit.Db.State.{Db, has_id, coalesce}
use jackrabbit.Db.Runners.{found_rows, or_not_found}
use jackrabbit.Db.Commands.{get_command, update_command_status, with_status, fits_exit_code}
use jackrabbit.Db.Commands.Lookup.{get_command-id, get_command-update}
use jackrabbit.Db.Commands.Queue.{other_row}

found_rows-ok : (n : ℕ) → n ≢ 0 → found_rows n ≡ ok tt
found_rows-ok zero h = absurd (h refl)
found_rows-ok (suc n) h = refl

-- The rows of an identifier that is found are not none.
pub row_exists :
    (db : Db) (id : Uuid) (c : Command)
    → get_command db id ≡ ok c
    → Table.affected (has_id id) db.commands ≢ 0
unfolding get_command
row_exists db id c h z = absurd (ground (arith, affected-find (has_id id) db.commands z))

pub no_row :
    (db : Db) (id : Uuid)
    → get_command db id ≡ err not_found
    → Table.affected (has_id id) db.commands ≡ 0
unfolding get_command
no_row db id h =
    find-affected (has_id id) db.commands (missing (Table.find (has_id id) db.commands) h)
  where
    missing : (o : Option Command) → or_not_found o ≡ err not_found → o ≡ none
    missing none e = refl
    missing (some c) e = absurd (ground arith)

status_found :
    (db : Db) (id : Uuid) (status : String) (opts : UpdateCommandOpts) (c : Command)
    → fits_exit_code opts.exit_code ≡ true
    → get_command db id ≡ ok c
    → ((update_command_status db id status opts).0 ≡ ok tt)
      × (get_command (update_command_status db id status opts).1 id
          ≡ ok (with_status status opts c))
unfolding update_command_status with_status
status_found db id status opts c fits h = (
  rw fits (found_rows-ok _ (row_exists db id c h)),
  rw fits (
      get_command-update db (has_id id) (with_status status opts) (λ d. refl) id c h
      ∙ rw ((nat_beq_iff c.id id).1 (get_command-id db id c h)) refl),
)

status_others :
    (db : Db) (id other : Uuid) (status : String) (opts : UpdateCommandOpts)
    → other ≢ id
    → get_command (update_command_status db id status opts).1 other ≡ get_command db other
unfolding update_command_status with_status
status_others db id other status opts ne = elim (Bool-cases (fits_exit_code opts.exit_code)) [
  | inl t ↦ rw t (other_row db id other (with_status status opts) (λ d. refl) ne)
  | inr f ↦ rw f refl
]

status_missing :
    (db : Db) (id : Uuid) (status : String) (opts : UpdateCommandOpts)
    → fits_exit_code opts.exit_code ≡ true
    → get_command db id ≡ err not_found
    → update_command_status db id status opts ≡ (err not_found, db)
unfolding update_command_status with_status
status_missing db id status opts fits h = rw fits (λ i. (
  found_rows (no_row db id h i),
  record db {
    commands = update_none (has_id id) (with_status status opts) db.commands (no_row db id h) i;
  },
))

-- A report of a command's status. Where the command exists and the exit code fits a column of type
-- INT, the row gets the status, and each option that is given, and keeps the rest; where it does not
-- exist the answer is "not found"; an exit code out of range is an error. Only the row of that
-- identifier ever changes, and only on success. The status that the row had plays no part.
pub update_command_status_lem :
    (db : Db) (id : Uuid) (status : String) (opts : UpdateCommandOpts)
    → let (result, db') = update_command_status db id status opts in
      ((c : Command)
        → fits_exit_code opts.exit_code ≡ true
        → get_command db id ≡ ok c
        → (result ≡ ok tt)
          × (get_command db' id
              ≡ ok (record c {
                status = status;
                exit_code = coalesce opts.exit_code c.exit_code;
                error_message = coalesce opts.error_message c.error_message;
                started_at = coalesce opts.started_at c.started_at;
                finished_at = coalesce opts.finished_at c.finished_at;
              })))
      × (fits_exit_code opts.exit_code ≡ true
          → get_command db id ≡ err not_found
          → (result ≡ err not_found) × (db' ≡ db))
      × (fits_exit_code opts.exit_code ≡ false
          → (result ≡ err (failed "update command status")) × (db' ≡ db))
      × ((other : Uuid) → other ≢ id → get_command db' other ≡ get_command db other)
unfolding with_status
update_command_status_lem db id status opts = (
  status_found db id status opts,
  (λ fits h. let e = status_missing db id status opts fits h in (ap (λ p. p.0) e, ap (λ p. p.1) e)),
  (λ over. unfold update_command_status in (rw over refl, rw over refl)),
  (λ other. status_others db id other status opts),
)
