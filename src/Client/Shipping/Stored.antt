-- ===== src/Client/Shipping/Stored.antt =====
-- ship of client/internal/shipper/logs.go: what a batch is to the server, and what the server then
-- keeps of a command's log.
use mathlib.Core.List.{Perm, map-append}
use mathlib.Core.List.Perm
use jackrabbit.Base.{
  String, ◌≡◌, refl, sym, ap, subst, ◌∙◌, Bool, true, some, List, [], ◌∷◌, ◌++◌, map, All,
}
use jackrabbit.Models.{Uuid, Log}
use jackrabbit.Table
use jackrabbit.Table.Ordered.{IsStrict, concat, concat-Perm}
use jackrabbit.Db.{Db}
use jackrabbit.Db.State.{runner_exists}
use jackrabbit.Db.Logs.{command_logs, of_command}
use jackrabbit.Db.Notify.{Engine}
use jackrabbit.Server.Http.{respond, empty}
use jackrabbit.Server.Handlers.Runners
use jackrabbit.Server.Handlers.Runners.Batches.{
  shown, shown_entry, earlier, accepted, is_about, posts,
}
use jackrabbit.Server.Handlers.Runners.Readback.{posts-command_logs}
use jackrabbit.Client.Shipping.{LogEntry, Shipper, new_shipper}
use jackrabbit.Client.Shipping.Flushes.{Step, steps, added, shipped_first, steps_lem}

-- The map of an entry, as the server decodes it.
abbrev pub ship_entry : LogEntry → Runners.LogEntry
ship_entry entry = record {
  command_id = some entry.command_id;
  source = entry.source;
  level = some entry.level;
  line = entry.line;
  seq = entry.seq;
  ts = entry.timestamp;
}

-- The batches of flush are not empty.
unfoldable pub ship : List LogEntry → List Runners.LogEntry
ship batch = map ship_entry batch

-- The batches of a shipper.
abbrev pub bodies : Shipper LogEntry → List (List LogEntry)
bodies s = map (λ b. b.0) s.batches

concat-ship :
    (batches : List (List LogEntry × Bool))
    → concat (map ship (map (λ (b : List LogEntry × Bool). b.0) batches))
      ≡ map ship_entry (shipped_first batches [])
unfolding concat ship shipped_first
concat-ship [] = refl
concat-ship ((batch, _) ∷ batches) =
    ap (λ l. map ship_entry batch ++ l) (concat-ship batches) ∙ sym (map-append ship_entry batch _)

-- Entries are added to a shipper of logs and flushed, in any order and until the buffer is empty, and
-- the batches arrive at the server in any order, from a runner that exists, about commands that exist,
-- and without NUL characters. Then every batch is answered with 204; and the log of a command that had
-- no lines before is, line by line, what was added of it, in the order of the adds, provided that its
-- sequence numbers climb in that order.
pub shipped-command_logs :
    (e : Engine) (slug : String) (db : Db) (id : Uuid) (es : List (Step LogEntry))
    (arrived : List (List LogEntry)) (scan : List Log → List Log)
    → ((ls : List Log) → Perm (scan ls) ls)
    → runner_exists db (some slug) ≡ true
    → (steps new_shipper es).buffer ≡ []
    → Perm arrived (bodies (steps new_shipper es))
    → All (All (λ l. accepted e.parse_uuid db l ≡ true)) (map ship arrived)
    → Table.select (of_command id) db.logs ≡ []
    → let own = Table.select (is_about e.parse_uuid id) (ship (added es)) in
      IsStrict earlier (map shown_entry own)
      → let (answers, db') = posts e slug db (map ship arrived) in
        All (λ r. r ≡ respond 204 empty) answers
        × (map shown (command_logs scan db' id)
            ≡ map shown_entry (Table.select (is_about e.parse_uuid id) (ship (added es))))
shipped-command_logs e slug db id es arrived scan law r flushed p a fresh climbs =
    let s = steps new_shipper es in
    let sent : map ship_entry (shipped_first s.batches []) ≡ ship (added es) =
      unfold ship in
      ap (map ship_entry) (ap (shipped_first s.batches) (sym flushed) ∙ (steps_lem es).0) in
    posts-command_logs e slug db id (map ship arrived) (ship (added es)) scan law r a fresh
      (subst (Perm (concat (map ship arrived))) (concat-ship s.batches ∙ sent)
        (concat-Perm (Perm.map ship p)))
      climbs
