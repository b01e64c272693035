-- ===== src/Db/Logs.antt =====
-- The log operations of server/internal/store/postgres/store.go.
pub mod Batches
pub mod Pages
pub mod Deletion
use jackrabbit.Base.{
  ℕ, zero, suc, ◌+◌, ◌-◌, ◌*◌, ◌/◌, ◌%◌, ◌^◌, String, nat_eq, string_eq, ℤ, pos_part, neg_part,
  leb_ℤ, leb, ltb, ◌==◌, sub_ℕ, if◌then◌else◌, Bool, true, false, not, ◌&&◌, ◌||◌, Option, none,
  some, any_of, List, [], ◌∷◌, ◌++◌, map, take, drop,
}
use jackrabbit.Models.{Time, Uuid, Log}
use jackrabbit.Results.{Result, ok, err, failed}
use jackrabbit.Table
use jackrabbit.Db.State.{has_nul, is_text, Db, runner_exists, command_exists, equals}

-- The foreign keys of a row of logs.
abbrev pub references_met : Db → Log → Bool
references_met db l = command_exists db l.command_id && runner_exists db l.runner_slug

-- The texts of a row of logs.
abbrev pub has_texts : String → Option String → String → Bool
has_texts source level line = is_text (some source) && is_text level && is_text (some line)

-- A row that the INSERT takes.
abbrev pub is_storable : Db → Log → Bool
is_storable db l = has_texts l.source l.level l.line && references_met db l

abbrev insert_log : Db → Log → Db
insert_log db l = record db {
  logs = db.logs ++ record l { id = db.next_log_id } ∷ [];
  next_log_id = suc db.next_log_id;
}

-- The statements of the batch in turn, up to the first that fails: a text is refused before the row
-- has drawn its number, a foreign key after.
insert_logs : Db → List Log → Result (Unit {0}) × Db
insert_logs db [] = (ok tt, db)
insert_logs db (l ∷ ls) =
    let rest = insert_logs (insert_log db l) ls in
    if not (has_texts l.source l.level l.line)
    then (err (failed "insert log"), db)
    else if references_met db l
    then rest
    else (err (failed "insert log"), insert_log db l)

-- A batch is one implicit transaction: a failure undoes the rows, but a sequence is not set back.
settle : Db → Result (Unit {0}) × Db → Result (Unit {0}) × Db
settle db (ok u, db') = (ok u, db')
settle db (err e, db') = (err e, record db { next_log_id = db'.next_log_id })

unfoldable pub batch_insert_logs : Db → List Log → Result (Unit {0}) × Db
unfolding insert_logs settle
batch_insert_logs db logs = settle db (insert_logs db logs)

-- `if page < 1 { page = 1 }`.
abbrev pub clamp_page : ℤ → ℕ
clamp_page (ℤ.pos zero) = 1
clamp_page (ℤ.pos (suc n)) = suc n
clamp_page (ℤ.negsuc n) = 1

-- `if pageSize < 1 || pageSize > 1000 { pageSize = 100 }`.
abbrev pub clamp_page_size : ℤ → ℕ
clamp_page_size (ℤ.pos n) = if ltb n 1 then 100 else if ltb 1000 n then 100 else n
clamp_page_size (ℤ.negsuc n) = 100

-- (page - 1) * pageSize in Go's 64-bit int; at 2^63 and above it stands for a negative number.
abbrev pub page_offset : ℕ → ℕ → ℕ
page_offset page size = ((page - 1) * size) % 2 ^ 64

abbrev pub of_command : Uuid → Log → Bool
of_command id l = equals l.command_id id

abbrev pub by_seq : Log → Log → Bool
by_seq l m = leb_ℤ l.seq m.seq

-- `scan` is the order in which a query comes upon the rows: rows of one number stay in it.
unfoldable pub command_logs : (List Log → List Log) → Db → Uuid → List Log
command_logs scan db id = Table.sort_by by_seq (scan (Table.select (of_command id) db.logs))

-- PostgreSQL refuses a negative OFFSET.
abbrev pub page_of {ℓ} : {A : Type ℓ} → String → List A → ℕ → ℕ → Result (List A)
page_of what rows page size =
    if ltb (page_offset page size) (2 ^ 63)
    then ok (take size (drop (page_offset page size) rows))
    else err (failed what)

-- PostgreSQL may scan in another order for each LIMIT and OFFSET.
unfoldable pub get_logs : (ℕ → ℕ → List Log → List Log) → Db → Uuid → ℤ → ℤ → Result (List Log)
get_logs scan db id page page_size =
    let size = clamp_page_size page_size in
    let offset = page_offset (clamp_page page) size in
    page_of "get logs" (command_logs (scan size offset) db id) (clamp_page page) size

-- A retention scope: all logs, those of a runner, or those of a command.
abbrev pub in_scope : Uuid → String → String → Log → Bool
in_scope id scope scope_id l =
    if scope == "global"
    then true
    else if scope == "runner"
    then equals l.runner_slug scope_id
    else equals l.command_id id

parsed_scope : Option Uuid → Result Uuid
parsed_scope none = err (failed "parse command UUID")
parsed_scope (some id) = ok id

-- The three scopes, with the identifier that a scope of "command" parses. `parse_uuid` is
-- pgtype.UUID's Scan.
unfoldable pub scope_target : (String → Option Uuid) → String → String → Result Uuid
unfolding parsed_scope
scope_target parse_uuid scope scope_id =
    if scope == "global"
    then ok 0
    else if scope == "runner"
    then ok 0
    else if scope == "command"
    then parsed_scope (parse_uuid scope_id)
    else err (failed "unsupported scope")

abbrev pub delete_where : (Log → Bool) → Db → Result ℕ × Db
delete_where p db =
    (ok (Table.affected p db.logs), record db { logs = Table.select (λ l. not (p l)) db.logs })

abbrev is_aged : Uuid → String → String → Time → Log → Bool
is_aged id scope scope_id cutoff l = in_scope id scope scope_id l && ltb l.ts cutoff

unfoldable pub delete_logs_by_age :
    (String → Option Uuid) → Db → String → String → Time → Result ℕ × Db
delete_logs_by_age parse_uuid db scope scope_id cutoff =
    elim (scope_target parse_uuid scope scope_id) [
      | ok id ↦ delete_where (is_aged id scope scope_id cutoff) db
      | err e ↦ (err e, db)
    ]

-- maxBytes / 100, which Go rounds towards zero.
abbrev pub max_logs : ℤ → ℤ
max_logs (ℤ.pos n) = ℤ.pos (n / 100)
max_logs (ℤ.negsuc n) = sub_ℕ 0 (suc n / 100)

-- GREATEST(0, COUNT(*) - $1).
abbrev pub excess : ℕ → ℤ → ℕ
excess count m = count + neg_part m - pos_part m

abbrev pub by_ts : Log → Log → Bool
by_ts l m = leb l.ts m.ts

-- SELECT id … ORDER BY ts ASC LIMIT …
unfoldable pub surplus_ids : (Log → Bool) → ℤ → List Log → List ℕ
surplus_ids scope m logs =
    map (λ (l : Log). l.id)
      (take (excess (Table.affected scope logs) m) (Table.sort_by by_ts (Table.select scope logs)))

unfoldable pub delete_logs_by_size :
    (String → Option Uuid) → Db → String → String → ℤ → Result ℕ × Db
unfolding surplus_ids
delete_logs_by_size parse_uuid db scope scope_id max_bytes =
    elim (scope_target parse_uuid scope scope_id) [
      | ok id ↦
          delete_where
            (λ l.
              any_of (surplus_ids (in_scope id scope scope_id) (max_logs max_bytes) db.logs) l.id)
            db
      | err e ↦ (err e, db)
    ]
