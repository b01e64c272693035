-- ===== src/Examples/Logs.antt =====
-- The logs of server/internal/store/postgres/store.go at concrete inputs.
use jackrabbit.Base.{
  ℕ, ℤ, ◌*◌, ◌≡◌, ◌≤◌, ◌↔◌, ◌⊎◌, some, List, [], ◌∷◌, ◌++◌, Memᴰ, All, true, false, arith, length,
  ◌+◌, get_elem?,
}
use mathlib.Core.List.{Perm}
use mathlib.Core.List.Perm
use jackrabbit.Table.Ordered.{IsStrict}
use jackrabbit.Base.{refl}
use jackrabbit.Models.{Uuid, Log}
use jackrabbit.Results.{Error, ok, err, failed}
use jackrabbit.Table
use jackrabbit.Table.Keys.{Distinct}
use jackrabbit.Db.Logs.{
  batch_insert_logs, is_storable, command_logs, by_seq, of_command, delete_logs_by_age,
  delete_logs_by_size, scope_target, in_scope,
}
use jackrabbit.Db.Logs.Batches.{numbered, batch_insert_logs_lem}
use jackrabbit.Db.Logs.Pages.{Scan, IsScan, in_order, read_pages, read_pages_lem}
use jackrabbit.Db.Logs.Deletion.{
  delete_logs_by_age_lem, delete_logs_by_size_lem, IsAgedOut, IsTrimmed, log_id,
}
use jackrabbit.Models.{Time, LogRetentionPolicy}
use jackrabbit.Db.State.{Db}
use jackrabbit.Db.Policies.{get_log_retention_policies}
use jackrabbit.Server.Store.{postgres}
use jackrabbit.Server.Retention.{day, run}
use jackrabbit.Server.Retention.Kept.{OnlyLoses, Obeys}
use jackrabbit.Server.Retention.Kept.Runs.{Governed, run-OnlyLoses}
use jackrabbit.Examples.Samples.{engine, logged, log}

abbrev batch : List Log
batch = log 0 4 40 ∷ log 0 5 50 ∷ []

batch_insert_logs_lem_example :
    let (result, db') = batch_insert_logs logged batch in
    ((All (λ l. is_storable logged l ≡ true) batch)
      × (result ≡ ok tt)
      × (db' ≡ record logged { logs = logged.logs ++ numbered 8 batch; next_log_id = 10 }))
    ⊎ (((bad : Log) × Memᴰ bad batch × (is_storable logged bad ≡ false))
        × (result ≡ err (failed "insert log"))
        × ((next : ℕ) × (db' ≡ record logged { next_log_id = next })))
batch_insert_logs_lem_example = batch_insert_logs_lem logged batch

abbrev in_turn : Scan
in_turn limit offset logs = logs

in_turn-IsScan : IsScan in_turn
in_turn-IsScan limit offset logs = Perm.refl logs

three_lines : length (in_order logged 1) ≤ 2 * 2
unfolding command_logs Table.select Table.sort_by
three_lines = omega arith

numbers_differ : IsStrict by_seq (in_order logged 1)
unfolding command_logs Table.select Table.sort_by
numbers_differ = ((refl, (refl, tt)), ((refl, tt), (tt, tt)))

read_pages_lem_example :
    (ls : List Log) × (read_pages in_turn logged 1 2 2 ≡ ok ls)
    × IsStrict by_seq ls
    × Perm ls (Table.select (of_command 1) logged.logs)
    × ((l : Log) → Memᴰ l ls ↔ (Memᴰ l logged.logs × (l.command_id ≡ some 1)))
read_pages_lem_example =
    read_pages_lem in_turn logged 1 2 2 in_turn-IsScan numbers_differ (omega arith) (omega arith)
      three_lines (omega arith)

delete_logs_by_age_lem_example :
    let (result, db') = delete_logs_by_age engine.parse_uuid logged "command" "1" 25 in
    ((id : Uuid) × (scope_target engine.parse_uuid "command" "1" ≡ ok id)
      × IsAgedOut logged (in_scope id "command" "1") 25 result db')
    ⊎ ((e : Error) × (scope_target engine.parse_uuid "command" "1" ≡ err e)
        × (result ≡ err e)
        × (db' ≡ logged))
delete_logs_by_age_lem_example = delete_logs_by_age_lem engine.parse_uuid logged "command" "1" 25

ids-Distinct : Distinct log_id logged.logs
ids-Distinct =
    (((λ e. omega arith), ((λ e. omega arith), tt)), (((λ e. omega arith), tt), (tt, tt)))

delete_logs_by_size_lem_example :
    let (result, db') = delete_logs_by_size engine.parse_uuid logged "runner" "alpha" (ℤ.pos 250) in
    ((id : Uuid) × (scope_target engine.parse_uuid "runner" "alpha" ≡ ok id)
      × IsTrimmed logged (in_scope id "runner" "alpha") 2 result db')
    ⊎ ((e : Error) × (scope_target engine.parse_uuid "runner" "alpha" ≡ err e)
        × (result ≡ err e)
        × (db' ≡ logged))
delete_logs_by_size_lem_example =
    delete_logs_by_size_lem engine.parse_uuid logged "runner" "alpha" (ℤ.pos 250) ids-Distinct

-- A day for the logs of the runner, and a mebibyte.
abbrev day_of_alpha : LogRetentionPolicy
day_of_alpha = record {
  id = 1;
  scope = "runner";
  scope_id = some "alpha";
  max_age_days = some (ℤ.pos 1);
  max_size_mb = some (ℤ.pos 1);
  created_at = 0;
  updated_at = 0;
}

abbrev governed : Db
governed = record logged { policies = day_of_alpha ∷ [] }

abbrev later : ℕ → Time
later i = day + 25 + i

run-OnlyLoses_example :
    let ps = get_log_retention_policies engine.by_scope governed in
    OnlyLoses (Governed engine.parse_uuid ps) governed (run (postgres engine) later governed)
    × ((i : ℕ) (p : LogRetentionPolicy)
        → get_elem? ps i ≡ some p
        → Obeys engine.parse_uuid (later i) p (run (postgres engine) later governed))
run-OnlyLoses_example = run-OnlyLoses engine later governed ids-Distinct
