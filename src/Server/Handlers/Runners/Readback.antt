-- ===== src/Server/Handlers/Runners/Readback.antt =====
-- GetLogs of server/internal/api/handlers/commands.go and BatchInsertLogs of runners.go: what is read
-- of a command's log after a runner has posted its batches.
use mathlib.Core.List.{Perm}
use mathlib.Core.List.Perm
use text.Mathlib.TextEquality.{IsScalar-prop}
use jackrabbit.Base.{
  String, nat_eq, ◌≡◌, refl, sym, ap, subst, ◌∙◌, true, some, List, [], ◌++◌, map, All,
}
use jackrabbit.Models.{Uuid, Log}
use jackrabbit.Table
use jackrabbit.Table.Sorting.{sort_by-perm, sort_by-IsSorted}
use jackrabbit.Table.Ordered.{IsStrict, sorted_unique, IsSorted-map, Perm-select, concat}
use jackrabbit.Db.{Db}
use jackrabbit.Db.State.{runner_exists}
use jackrabbit.Db.Logs.{command_logs, of_command, by_seq}
use jackrabbit.Db.Logs.Pages.{by_seq-total, by_seq_trans}
use jackrabbit.Db.Notify.{Engine}
use jackrabbit.Server.Http.{respond, empty}
use jackrabbit.Server.Handlers.Runners.{LogEntry}
use jackrabbit.Server.Handlers.Runners.Batches.{
  Shown, shown, shown_entry, earlier, accepted, is_about, posts, batches_posted,
}

Shown-IsSet : IsSet Shown
Shown-IsSet = hlevel IsScalar-prop

-- A runner that exists posts batches of log entries, in any order; the texts of each entry have no NUL
-- character, and it names no command or one that exists. Then every batch is answered with 204; and the log of a command that had no lines
-- before is, however a query scans the table, line by line, the entries that name the command, in the order in which they were sent,
-- provided that they were sent with climbing sequence numbers.
pub posts-command_logs :
    (e : Engine) (slug : String) (db : Db) (id : Uuid) (batches : List (List LogEntry))
    (sent : List LogEntry) (scan : List Log → List Log)
    → ((ls : List Log) → Perm (scan ls) ls)
    → runner_exists db (some slug) ≡ true
    → All (All (λ l. accepted e.parse_uuid db l ≡ true)) batches
    → Table.select (of_command id) db.logs ≡ []
    → Perm (concat batches) sent
    → IsStrict earlier (map shown_entry (Table.select (is_about e.parse_uuid id) sent))
    → let (answers, db') = posts e slug db batches in
      All (λ r. r ≡ respond 204 empty) answers
      × (map shown (command_logs scan db' id)
          ≡ map shown_entry (Table.select (is_about e.parse_uuid id) sent))
unfolding command_logs
posts-command_logs e slug db id batches sent scan law r a fresh p climbs =
    let (good, rows) = batches_posted e slug id db batches r a in
    let db' = (posts e slug db batches).1 in
    let kept = Table.select (of_command id) db'.logs in
    let about = Table.select (is_about e.parse_uuid id) in
    let new : map shown kept ≡ map shown_entry (about (concat batches)) =
      rows ∙ ap (λ l. map shown l ++ map shown_entry (about (concat batches))) fresh in
    let same : Perm (map shown (Table.sort_by by_seq (scan kept))) (map shown_entry (about sent)) =
      Perm.trans (Perm.map shown (Perm.trans (sort_by-perm by_seq (scan kept)) (law kept))) (
        subst (λ l. Perm l (map shown_entry (about sent))) (sym new)
          (Perm.map shown_entry (Perm-select (is_about e.parse_uuid id) p))) in
    (
      good,
      sorted_unique Shown-IsSet earlier _ _
          (IsSorted-map by_seq earlier shown (λ l m. refl) _
            (sort_by-IsSorted by_seq by_seq-total by_seq_trans (scan kept)))
          climbs same,
    )
