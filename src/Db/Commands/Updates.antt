-- ===== src/Db/Commands/Updates.antt =====
-- The statements that change one command by its identifier (server/internal/store/postgres/store.go):
-- InsertCommand, SetCommandKillRequested and UpdateCommandStatus.
use text.Mathlib.TextEquality.{eq_iff}
use jackrabbit.Base.{
  ◌≡◌, ◌≢◌, ◌⊎◌, ◌↔◌, refl, sym, ap, subst, ◌∙◌, nat_eq, string_eq, ◌==◌, Bool, true, ◌||◌, Option,
  none, some, arith,
}
use jackrabbit.Models.{Command, Uuid}
use jackrabbit.Results.{ok, err, not_found}
use jackrabbit.Table
use jackrabbit.Table.Rows.{update_none}
use jackrabbit.Table.Keys.{hits, affected-key}
use jackrabbit.Db.State.{Db, IsValid, has_id, id_of}
use jackrabbit.Db.Runners.{found_rows, or_not_found}
use jackrabbit.Db.Commands.{get_command, is_killable, set_command_kill_requested}
use jackrabbit.Db.Commands.Lookup.{get_command-id, get_command-update, get_command-update_other}

abbrev is_active : Command → Bool
is_active c = c.status == "claimed" || c.status == "running"

kill_result :
    (db : Db) (id : Uuid)
    → IsValid db
    → (set_command_kill_requested db id).0
      ≡ found_rows (hits is_active (Table.find (has_id id) db.commands))
unfolding set_command_kill_requested
kill_result db id v = ap found_rows (affected-key id_of id is_active db.commands v.ids_distinct)

-- A command that a kill request reaches.
abbrev pub IsActive : Command → Type 0
IsActive c = (c.status ≡ "claimed") ⊎ (c.status ≡ "running")

IsActive-iff : (c : Command) → (is_active c ≡ true) ↔ IsActive c
IsActive-iff c = (
  (λ h. ground (arith, eq_iff c.status "claimed", eq_iff c.status "running")),
  (λ h. ground (arith, eq_iff c.status "claimed", eq_iff c.status "running")),
)

kill_found :
    (o : Option Command)
    → (found_rows (hits is_active o) ≡ ok tt)
      ↔ ((c : Command) × (or_not_found o ≡ ok c) × IsActive c)
kill_found none = ((λ h. absurd (ground arith)), (λ w. absurd (ground (arith, w.1))))
kill_found (some c) = (
  (λ h. (c, refl, (IsActive-iff c).0 (ground arith))),
  (λ w. ground (arith, (IsActive-iff w.0).1 w.2, w.1)),
)

kill_missed : (o : Option Command) → found_rows (hits is_active o) ≢ ok tt → hits is_active o ≡ 0
kill_missed none h = refl
kill_missed (some c) h = ground arith

kill_iff :
    (db : Db) (id : Uuid)
    → IsValid db
    → ((set_command_kill_requested db id).0 ≡ ok tt)
      ↔ ((c : Command) × (get_command db id ≡ ok c) × IsActive c)
unfolding get_command
kill_iff db id v =
    subst (λ r. (r ≡ ok tt) ↔ ((c : Command) × (get_command db id ≡ ok c) × IsActive c))
      (sym (kill_result db id v)) (kill_found (Table.find (has_id id) db.commands))

kill_row :
    (db : Db) (id : Uuid) (c : Command)
    → get_command db id ≡ ok c
    → IsActive c
    → get_command (set_command_kill_requested db id).1 id
      ≡ ok (record c { kill_requested_at = some db.now })
unfolding set_command_kill_requested
kill_row db id c h a =
    get_command-update db (is_killable id) _ (λ d. refl) id c h
    ∙ ground (arith, get_command-id db id c h, (IsActive-iff c).1 a)

kill_others :
    (db : Db) (id other : Uuid)
    → other ≢ id
    → get_command (set_command_kill_requested db id).1 other ≡ get_command db other
unfolding set_command_kill_requested
kill_others db id other ne =
    get_command-update_other db (is_killable id) _ (λ d. refl) other
      (λ c h. ground (arith, get_command-id db other c h))

kill_missing :
    (db : Db) (id : Uuid)
    → IsValid db
    → (set_command_kill_requested db id).0 ≢ ok tt
    → ((set_command_kill_requested db id).0 ≡ err not_found)
      × ((set_command_kill_requested db id).1 ≡ db)
unfolding set_command_kill_requested
kill_missing db id v miss =
    let none_hit : hits is_active (Table.find (has_id id) db.commands) ≡ 0 =
      kill_missed (Table.find (has_id id) db.commands) (λ e. miss (kill_result db id v ∙ e)) in
    let untouched : Table.affected (is_killable id) db.commands ≡ 0 =
      affected-key id_of id is_active db.commands v.ids_distinct ∙ none_hit in
    (
      ap found_rows untouched,
      ap (λ cs. record db { commands = cs }) (update_none (is_killable id) _ db.commands untouched),
    )

-- Where keys are distinct, a kill request succeeds exactly when the command exists and is claimed or running. Then its row
-- gets the time of the request and is otherwise as it was; no other command changes, and a request
-- that does not succeed answers "not found" and leaves the database alone.
pub set_command_kill_requested_lem :
    (db : Db) (id : Uuid)
    → IsValid db
    → let (result, db') = set_command_kill_requested db id in
      ((result ≡ ok tt) ↔ ((c : Command) × (get_command db id ≡ ok c) × IsActive c))
      × ((c : Command)
          → get_command db id ≡ ok c
          → IsActive c
          → get_command db' id ≡ ok (record c { kill_requested_at = some db.now }))
      × ((other : Uuid) → other ≢ id → get_command db' other ≡ get_command db other)
      × (result ≢ ok tt → (result ≡ err not_found) × (db' ≡ db))
set_command_kill_requested_lem db id v =
    (kill_iff db id v, kill_row db id, kill_others db id, kill_missing db id v)
