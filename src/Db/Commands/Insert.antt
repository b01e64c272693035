-- ===== src/Db/Commands/Insert.antt =====
-- InsertCommand of server/internal/store/postgres/store.go.
use jackrabbit.Base.{
  ◌≡◌, ◌≢◌, ◌⊎◌, inl, inr, refl, sym, ap, ◌∙◌, nat_eq, ◌==◌, ℤ, Bool, true, false, fits_int4, none,
  arith, nat_beq_iff, ◌++◌, ◌∷◌, [],
}
use jackrabbit.Models.{Command, Uuid}
use jackrabbit.Results.{ok, err, not_found, failed}
use jackrabbit.Table
use jackrabbit.Table.Rows.{find-snoc, find-snoc_other, affected-find}
use jackrabbit.Table.Keys.{Distinct-snoc}
use jackrabbit.Db.State.{Db, IsValid, has_id, id_of}
use jackrabbit.Db.Runners.{or_not_found}
use jackrabbit.Db.Commands.{get_command, insert_command, inserted}
use jackrabbit.Db.Commands.Status.{no_row}

-- Whether an INSERT of a command is taken.
abbrev pub Insertable : Db → Uuid → Command → Type 0
Insertable db id cmd =
    (get_command db id ≡ err not_found)
    × (fits_int4 cmd.max_retries ≡ true)
    × (fits_int4 cmd.timeout_secs ≡ true)

pub insert_taken :
    (db : Db) (id : Uuid) (cmd : Command)
    → Insertable db id cmd
    → insert_command db id cmd
      ≡ (ok (inserted db id cmd), record db { commands = db.commands ++ inserted db id cmd ∷ [] })
unfolding insert_command
insert_taken db id cmd (absent, retries, timeout) = rw (retries, timeout, no_row db id absent) refl

pub insert_row :
    (db : Db) (id : Uuid) (row : Command)
    → row.id ≡ id
    → get_command db id ≡ err not_found
    → get_command (record db { commands = db.commands ++ row ∷ [] }) id ≡ ok row
unfolding get_command
insert_row db id row same h =
    ap or_not_found
      (find-snoc (has_id id) db.commands row (no_row db id h) ((nat_beq_iff row.id id).1 same))

insert_other :
    (db : Db) (other : Uuid) (row : Command)
    → row.id ≢ other
    → get_command (record db { commands = db.commands ++ row ∷ [] }) other ≡ get_command db other
unfolding get_command
insert_other db other row ne =
    ap or_not_found (find-snoc_other (has_id other) db.commands row (ground arith))

-- The two outcomes of an INSERT.
pub insert_outcome :
    (db : Db) (id : Uuid) (cmd : Command)
    → Insertable db id cmd ⊎ (insert_command db id cmd ≡ (err (failed "insert command"), db))
insert_outcome db id cmd =
    decide (fits_int4 cmd.max_retries) (fits_int4 cmd.timeout_secs)
      (Table.affected (has_id id) db.commands == 0) refl refl refl
  where
    absent :
        (Table.affected (has_id id) db.commands == 0) ≡ true → get_command db id ≡ err not_found
    absent t =
        unfold get_command in
        (ap or_not_found (affected-find (has_id id) db.commands ((nat_beq_iff _ 0).0 t)))

    decide :
        (a b c : Bool)
        → fits_int4 cmd.max_retries ≡ a
        → fits_int4 cmd.timeout_secs ≡ b
        → (Table.affected (has_id id) db.commands == 0) ≡ c
        → Insertable db id cmd ⊎ (insert_command db id cmd ≡ (err (failed "insert command"), db))
    decide true true true p q r = inl (absent r, p, q)
    decide false b c p q r = inr (unfold insert_command in (rw p refl))
    decide true false c p q r = inr (unfold insert_command in (rw (p, q) refl))
    decide true true false p q r = inr (unfold insert_command in (rw (p, q, r) refl))

insert-IsValid :
    (db : Db) (id : Uuid) (row : Command)
    → row.id ≡ id
    → IsValid db
    → get_command db id ≡ err not_found
    → IsValid (record db { commands = db.commands ++ row ∷ [] })
insert-IsValid db id row same v h = record {
  slugs_distinct = v.slugs_distinct;
  ids_distinct = Distinct-snoc id_of row db.commands (rw same (no_row db id h)) v.ids_distinct;
}

-- Where keys are distinct, an INSERT whose identifier is new and whose numbers fit their columns returns the row that it
-- appends: the given fields, the new identifier, the time of the database, and no runner, result or
-- request to be killed. Any other INSERT fails and changes nothing. Either way the other commands
-- stay, and the keys stay distinct.
pub insert_command_lem :
    (db : Db) (id : Uuid) (cmd : Command)
    → IsValid db
    → let (result, db') = insert_command db id cmd in
      let row : Command = record cmd {
        id = id;
        assigned_runner = none;
        retry_count = ℤ.pos 0;
        exit_code = none;
        error_message = none;
        kill_requested_at = none;
        created_at = db.now;
        claimed_at = none;
        started_at = none;
        finished_at = none;
      } in
      ((Insertable db id cmd × (result ≡ ok row) × (get_command db' id ≡ ok row))
        ⊎ ((result ≡ err (failed "insert command")) × (db' ≡ db)))
      × (Insertable db id cmd → result ≡ ok row)
      × ((other : Uuid) → other ≢ id → get_command db' other ≡ get_command db other)
      × IsValid db'
insert_command_lem db id cmd v = elim (insert_outcome db id cmd) [
  | inl good ↦ rw (insert_taken db id cmd good) (
      unfold inserted in
      (
        inl (good, refl, insert_row db id (inserted db id cmd) refl good.0),
        (λ _. refl),
        (λ other ne. insert_other db other (inserted db id cmd) (λ e. ne (sym e))),
        insert-IsValid db id (inserted db id cmd) refl v good.0,
      ))
  | inr bad ↦ rw bad (
    inr (refl, refl),
    (λ good. unfold inserted in ap (λ p. p.0) (sym bad ∙ insert_taken db id cmd good)),
    (λ other ne. refl),
    v,
  )
]
