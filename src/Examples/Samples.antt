-- ===== src/Examples/Samples.antt =====
-- The rows that the examples run on (server/internal/models/models.go).
use jackrabbit.Base.{
  ℕ, ◌*◌, ◌/◌, length, String, ℤ, false, true, Option, nat_eq, string_eq, ◌==◌, if◌then◌else◌, none,
  some, List, [], ◌∷◌, arith,
}
use jackrabbit.Models.{Time, Uuid, Runner, Command, Log, Metric}
use jackrabbit.Results.{err, failed}
use jackrabbit.Db.{Db, IsValid}
use jackrabbit.Db.Rollups.{Aggregates}
use jackrabbit.Db.Notify.{Engine}

abbrev pub runner : String → List String → String → ℕ → Runner
runner slug tags status active = record {
  slug = slug;
  name = slug;
  tags = tags;
  status = status;
  concurrency_limit = ℤ.pos 2;
  gpu_capable = false;
  active_count = ℤ.pos active;
  last_seen = none;
  orphaned_at = none;
  created_at = active;
  updated_at = 0;
}

abbrev pub command : Uuid → String → String → String → Time → Command
command id target_type target_value status deadline = record {
  id = id;
  target_type = target_type;
  target_value = target_value;
  payload = [];
  status = status;
  assigned_runner = none;
  retry_count = ℤ.pos 0;
  max_retries = ℤ.pos 0;
  timeout_secs = ℤ.pos 60;
  exit_code = none;
  error_message = none;
  kill_requested_at = none;
  deadline = some deadline;
  created_at = id;
  claimed_at = none;
  started_at = none;
  finished_at = none;
}

abbrev pub alpha : Runner
alpha = runner "alpha" ("gpu" ∷ []) "online" 1

abbrev pub beta : Runner
beta = runner "beta" [] "offline" 2

abbrev pub to_alpha : Command
to_alpha = command 1 "slug" "alpha" "queued" 100

abbrev pub to_gpu : Command
to_gpu = command 2 "tag" "gpu" "queued" 100

abbrev pub on_alpha : Command
on_alpha = command 3 "slug" "alpha" "running" 50

abbrev pub db : Db
db = record {
  runners = alpha ∷ beta ∷ [];
  commands = to_gpu ∷ to_alpha ∷ on_alpha ∷ [];
  logs = [];
  metrics = [];
  metric_rollups = [];
  policies = [];
  next_log_id = 1;
  next_metric_id = 1;
  next_rollup_id = 1;
  now = 60;
  locked = [];
  notifications = [];
}

pub db-IsValid : IsValid db
db-IsValid = record {
  slugs_distinct = (((λ e. cc), tt), (tt, tt));
  ids_distinct =
      (((λ e. omega arith), ((λ e. omega arith), tt)), (((λ e. omega arith), tt), (tt, tt)));
}

-- Buckets of a minute and of five, and for an average the number of values.
abbrev pub aggregates : Aggregates
aggregates = record {
  date_trunc = λ unit t.
      if unit == "1 minute"
      then some (t / 60 * 60)
      else if unit == "5 minutes"
      then some (t / 300 * 300)
      else none;
  avg = λ xs. some (length xs);
}

-- UUIDs of one digit; statements given as text fail.
abbrev pub engine : Engine
engine = record {
  parse_uuid = λ s. if s == "1" then some 1 else none;
  print_uuid = λ id. if id == 1 then "1" else "2";
  by_scope = λ p q. true;
  scan_logs = λ limit offset logs. logs;
  aggregates = aggregates;
  exec_text = λ text db. (err (failed "syntax error"), db);
}

abbrev pub log : ℕ → ℕ → Time → Log
log id seq ts = record {
  id = id;
  command_id = some 1;
  runner_slug = some "alpha";
  source = "stdout";
  level = none;
  line = "hello";
  seq = ℤ.pos seq;
  ts = ts;
}

abbrev pub logged : Db
logged = record db { logs = log 5 2 20 ∷ log 6 1 10 ∷ log 7 3 30 ∷ []; next_log_id = 8 }

abbrev pub metric : ℕ → Option Uuid → Time → Metric
metric id command ts = record {
  id = id;
  command_id = command;
  runner_slug = some "alpha";
  cpu_percent = some id;
  mem_mb = some 0;
  gpu_percent = none;
  gpu_mem_mb = none;
  rolled_up = false;
  sample_ts = ts;
}

abbrev pub measured : Db
measured = record db {
  metrics = metric 1 (some 1) 65 ∷ metric 2 none 70 ∷ metric 3 (some 1) 130 ∷ [];
}
