-- ===== src/Db/Commands/Lookup.antt =====
-- GetCommand of server/internal/store/postgres/store.go before and after an UPDATE.
use mathlib.Core.Option
use jackrabbit.Base.{
  ◌≡◌, refl, ap, Bool, false, ◌==◌, nat_eq, Option, none, some, Memᴰ, arith, if◌then◌else◌,
}
use jackrabbit.Models.{Command, Uuid}
use jackrabbit.Results.{ok}
use jackrabbit.Table
use jackrabbit.Table.Rows.{find-update, find_passes}
use jackrabbit.Table.Keys.{find-mem}
use jackrabbit.Db.State.{Db, IsValid, has_id, id_of}
use jackrabbit.Db.Runners.{or_not_found}
use jackrabbit.Db.Commands.{get_command}

-- A row of the table is the one that its identifier finds.
pub get_command-mem :
    (db : Db) (c : Command) → IsValid db → Memᴰ c db.commands → get_command db c.id ≡ ok c
unfolding get_command
get_command-mem db c v m = rw (find-mem id_of c db.commands v.ids_distinct m) refl

pub get_command-id : (db : Db) (id : Uuid) (c : Command) → get_command db id ≡ ok c → c.id ≡ id
unfolding get_command
get_command-id db id c h = ground (arith, find_passes (has_id id) db.commands c)

kept_row :
    (p : Command → Bool) (f : Command → Command) (o : Option Command)
    → ((c : Command) → or_not_found o ≡ ok c → p c ≡ false)
    → or_not_found (Option.map (λ c. if p c then f c else c) o) ≡ or_not_found o
kept_row p f none h = refl
kept_row p f (some c) h = rw (h c refl) refl

module _ (db : Db) (p : Command → Bool) (f : Command → Command)
    (keeps : (c : Command) → (f c).id ≡ c.id) where
  find_updated :
      (id : Uuid)
      → Table.find (has_id id) (Table.update p f db.commands)
        ≡ Option.map (λ c. if p c then f c else c) (Table.find (has_id id) db.commands)
  find_updated id = find-update (has_id id) p f db.commands (λ c. ap (λ i. i == id) (keeps c))

  -- An UPDATE acts on each row by itself.
  pub get_command-update :
      (id : Uuid) (c : Command)
      → get_command db id ≡ ok c
      → get_command (record db { commands = Table.update p f db.commands }) id
        ≡ ok (if p c then f c else c)
  unfolding get_command
  get_command-update id c h = ground (arith, find_updated id)

  -- A row that the WHERE clause does not select stays, and no row appears.
  pub get_command-update_other :
      (id : Uuid)
      → ((c : Command) → get_command db id ≡ ok c → p c ≡ false)
      → get_command (record db { commands = Table.update p f db.commands }) id ≡ get_command db id
  unfolding get_command
  get_command-update_other id h = rw (find_updated id) (kept_row p f _ h)
