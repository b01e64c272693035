-- ===== src/Server/Store.antt =====
-- The interface Store of server/internal/store/interface.go, over a state S, and the PostgreSQL
-- store as one value of it. An operation takes the state to the result and the next state; one that
-- reads time.Now() or draws a UUID is given it.
use jackrabbit.Base.{ℕ, String, ℤ, Option, List}
use jackrabbit.Models.{
  Time, Uuid, Runner, Command, Log, Metric, LogRetentionPolicy, UpdateCommandOpts,
}
use jackrabbit.Results.{Result, ok}
use jackrabbit.Db.{Db}
use jackrabbit.Db.Runners
use jackrabbit.Db.Commands
use jackrabbit.Db.Logs
use jackrabbit.Db.Metrics
use jackrabbit.Db.Rollups
use jackrabbit.Db.Policies
use jackrabbit.Db.Notify
use jackrabbit.Db.Notify.{Engine}

pub record Store (S : Type 0) : Type 0 where
  pub upsert_runner : S → Runner → Time → Result (Unit {0}) × S
  pub get_runner : S → String → Result Runner × S
  pub list_runners : S → List String → String → Result (List Runner) × S
  pub update_runner_heartbeat : S → String → Time → Result (Unit {0}) × S
  pub update_runner_status : S → String → String → Time → Result (Unit {0}) × S
  pub increment_runner_active_count : S → String → ℤ → Result (Unit {0}) × S
  pub mark_orphaned_runners : S → Time → Result ℕ × S
  pub insert_command : S → Uuid → Command → Result Command × S
  pub claim_next_command : S → String → List String → Result Command × S
  pub update_command_status : S → Uuid → String → UpdateCommandOpts → Result (Unit {0}) × S
  pub get_command : S → Uuid → Result Command × S
  pub set_command_kill_requested : S → Uuid → Result (Unit {0}) × S
  pub fail_expired_commands : S → Time → Result ℕ × S
  pub fail_stuck_commands : S → Result ℕ × S
  pub batch_insert_logs : S → List Log → Result (Unit {0}) × S
  pub get_logs : S → Uuid → ℤ → ℤ → Result (List Log) × S
  pub delete_logs_by_age : S → String → String → Time → Result ℕ × S
  pub delete_logs_by_size : S → String → String → ℤ → Result ℕ × S
  pub batch_insert_metrics : S → List Metric → Result (Unit {0}) × S
  pub get_metrics : S → Uuid → String → ℤ → ℤ → Result (List Metric) × S
  pub rollup_metrics : S → String → Time → Time → Result ℕ × S
  pub get_retention_policy : S → String → Option String → Result LogRetentionPolicy × S
  pub get_log_retention_policies : S → Result (List LogRetentionPolicy) × S
  pub notify_runner : S → String → Uuid → Result (Unit {0}) × S

-- The store that cmd/server runs on, while the database answers.
abbrev pub postgres : Engine → Store Db
postgres e = record {
  upsert_runner = Runners.upsert_runner;
  get_runner = λ db slug. (Runners.get_runner db slug, db);
  list_runners = λ db tags status. (ok (Runners.list_runners db tags status), db);
  update_runner_heartbeat = Runners.update_runner_heartbeat;
  update_runner_status = Runners.update_runner_status;
  increment_runner_active_count = Runners.increment_runner_active_count;
  mark_orphaned_runners =
      λ db cutoff. let (n, db') = Runners.mark_orphaned_runners db cutoff in (ok n, db');
  insert_command = Commands.insert_command;
  claim_next_command = Commands.claim_next_command;
  update_command_status = Commands.update_command_status;
  get_command = λ db id. (Commands.get_command db id, db);
  set_command_kill_requested = Commands.set_command_kill_requested;
  fail_expired_commands =
      λ db now. let (n, db') = Commands.fail_expired_commands db now in (ok n, db');
  fail_stuck_commands = λ db. let (n, db') = Commands.fail_stuck_commands db in (ok n, db');
  batch_insert_logs = Logs.batch_insert_logs;
  get_logs = λ db id page size. (Logs.get_logs e.scan_logs db id page size, db);
  delete_logs_by_age = Logs.delete_logs_by_age e.parse_uuid;
  delete_logs_by_size = Logs.delete_logs_by_size e.parse_uuid;
  batch_insert_metrics = Metrics.batch_insert_metrics;
  get_metrics = λ db id resolution page size. (Rollups.get_metrics db id resolution page size, db);
  rollup_metrics = Rollups.rollup_metrics e.aggregates;
  get_retention_policy = λ db scope scope_id. (Policies.get_retention_policy db scope scope_id, db);
  get_log_retention_policies = λ db. (ok (Policies.get_log_retention_policies e.by_scope db), db);
  notify_runner = Notify.notify_runner e;
}
