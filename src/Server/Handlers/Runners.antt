-- ===== src/Server/Handlers/Runners.antt =====
-- server/internal/api/handlers/runners.go.
pub mod Reports
pub mod Batches
pub mod Readback
use jackrabbit.Base.{
  String, ℤ, string_eq, is_zero, ◌==◌, if◌then◌else◌, Bool, false, ◌||◌, Option, none, some, List,
  [], ◌∷◌,
}
use jackrabbit.Models.{Time, Uuid, Runner, Log, Metric, Float64, UpdateCommandOpts}
use jackrabbit.Results.{Result, ok, err}
use jackrabbit.Server.Store.{Store}
use jackrabbit.Server.Http.{Response, empty, runner, runners, write_error, respond}
use jackrabbit.Server.Handlers.Commands.{store_error}

pub record RegisterRequest : Type 0 where
  pub slug : String
  pub name : String
  pub tags : List String
  pub concurrency_limit : ℤ
  pub gpu_capable : Bool

pub record LogEntry : Type 0 where
  pub command_id : Option String
  pub source : String
  pub level : Option String
  pub line : String
  pub seq : ℤ
  pub ts : Time

pub record MetricSample : Type 0 where
  pub command_id : Option String
  pub cpu_percent : Option Float64
  pub mem_mb : Option Float64
  pub gpu_percent : Option Float64
  pub gpu_mem_mb : Option Float64
  pub sample_ts : Time

pub record ResultRequest : Type 0 where
  pub command_id : String
  pub status : String
  pub exit_code : Option ℤ
  pub error_message : Option String

-- The models.Runner of the request; fields that Register does not set have Go's zero values.
unfoldable pub online_runner : RegisterRequest → Runner
online_runner req = record {
  slug = req.slug;
  name = req.name;
  tags = req.tags;
  status = "online";
  concurrency_limit = if is_zero req.concurrency_limit then ℤ.pos 4 else req.concurrency_limit;
  gpu_capable = req.gpu_capable;
  active_count = ℤ.pos 0;
  last_seen = none;
  orphaned_at = none;
  created_at = 0;
  updated_at = 0;
}

-- An optional identifier: absent, or parsed, or refused.
abbrev pub parse_optional : (String → Option Uuid) → Option String → Option (Option Uuid)
parse_optional parse_uuid none = some none
parse_optional parse_uuid (some s) = elim (parse_uuid s) [ none ↦ none | some id ↦ some (some id) ]

abbrev pub log_of : String → LogEntry → Option Uuid → Log
log_of slug entry id = record {
  id = 0;
  command_id = id;
  runner_slug = some slug;
  source = entry.source;
  level = entry.level;
  line = entry.line;
  seq = entry.seq;
  ts = entry.ts;
}

abbrev pub cons_some {ℓ} : {A : Type ℓ} → Option A → Option (List A) → Option (List A)
cons_some none _ = none
cons_some (some a) none = none
cons_some (some a) (some rest) = some (a ∷ rest)

-- The loop that fills `logs`, which stops at the first identifier that does not parse.
unfoldable pub logs_of : (String → Option Uuid) → String → List LogEntry → Option (List Log)
logs_of parse_uuid slug [] = some []
logs_of parse_uuid slug (entry ∷ entries) =
    let rest = logs_of parse_uuid slug entries in
    elim (parse_optional parse_uuid entry.command_id) [
      | none ↦ none
      | some id ↦ cons_some (some (log_of slug entry id)) rest
    ]

abbrev metric_of : String → MetricSample → Option Uuid → Metric
metric_of slug sample id = record {
  id = 0;
  command_id = id;
  runner_slug = some slug;
  cpu_percent = sample.cpu_percent;
  mem_mb = sample.mem_mb;
  gpu_percent = sample.gpu_percent;
  gpu_mem_mb = sample.gpu_mem_mb;
  rolled_up = false;
  sample_ts = sample.sample_ts;
}

unfoldable pub metrics_of :
    (String → Option Uuid) → String → List MetricSample → Option (List Metric)
metrics_of parse_uuid slug [] = some []
metrics_of parse_uuid slug (sample ∷ samples) =
    let rest = metrics_of parse_uuid slug samples in
    elim (parse_optional parse_uuid sample.command_id) [
      | none ↦ none
      | some id ↦ cons_some (some (metric_of slug sample id)) rest
    ]

abbrev result_opts : ResultRequest → Time → UpdateCommandOpts
result_opts req now = record {
  exit_code = req.exit_code;
  error_message = req.error_message;
  started_at = none;
  finished_at = some now;
}

module _ {S : Type 0} (store : Store S) where
  registered : Result Runner × S → Response × S
  registered (ok r, s) = (respond 200 (runner r), s)
  registered (err e, s) = (write_error 500 "failed to retrieve runner", s)

  upserted : Result (Unit {0}) × S → String → Response × S
  unfolding registered
  upserted (err e, s) slug = (write_error 500 "failed to register runner", s)
  upserted (ok u, s) slug = registered (store.get_runner s slug)

  -- `now` is the time.Now() of UpsertRunner.
  unfoldable pub register : Time → S → Option RegisterRequest → Response × S
  unfolding upserted online_runner
  register now s none = (write_error 400 "invalid request body", s)
  register now s (some req) =
      if req.slug == "" || req.name == ""
      then (write_error 400 "slug and name are required", s)
      else upserted (store.upsert_runner s (online_runner req) now) req.slug

  got : Result Runner × S → Response × S
  got (ok r, s) = (respond 200 (runner r), s)
  got (err e, s) = (store_error e "runner not found" "failed to retrieve runner", s)

  unfoldable pub get : S → String → Response × S
  unfolding got
  get s slug = got (store.get_runner s slug)

  all_listed : Result (List Runner) × S → Response × S
  all_listed (ok rs, s) = (respond 200 (runners rs), s)
  all_listed (err e, s) = (write_error 500 "failed to list runners", s)

  unfoldable pub list : S → List String → String → Response × S
  unfolding all_listed
  list s tags status = all_listed (store.list_runners s tags status)

  no_content : String → String → Result (Unit {0}) × S → Response × S
  no_content missing broken (ok u, s) = (respond 204 empty, s)
  no_content missing broken (err e, s) = (store_error e missing broken, s)

  unfoldable pub deregister : Time → S → String → Response × S
  unfolding no_content
  deregister now s slug =
      no_content "runner not found" "failed to deregister runner"
        (store.update_runner_status s slug "offline" now)

  unfoldable pub heartbeat : Time → S → String → Response × S
  unfolding no_content
  heartbeat now s slug =
      no_content "runner not found" "failed to update heartbeat"
        (store.update_runner_heartbeat s slug now)

  stored : String → Result (Unit {0}) × S → Response × S
  stored broken (ok u, s) = (respond 204 empty, s)
  stored broken (err e, s) = (write_error 500 broken, s)

  unfoldable pub batch_insert_logs :
      (String → Option Uuid) → S → String → Option (List LogEntry) → Response × S
  unfolding stored
  batch_insert_logs parse_uuid s slug none = (write_error 400 "invalid request body", s)
  batch_insert_logs parse_uuid s slug (some entries) = elim (logs_of parse_uuid slug entries) [
    | none ↦ (write_error 400 "invalid command_id", s)
    | some logs ↦ stored "failed to insert logs" (store.batch_insert_logs s logs)
  ]

  unfoldable pub batch_insert_metrics :
      (String → Option Uuid) → S → String → Option (List MetricSample) → Response × S
  unfolding stored
  batch_insert_metrics parse_uuid s slug none = (write_error 400 "invalid request body", s)
  batch_insert_metrics parse_uuid s slug (some samples) =
      elim (metrics_of parse_uuid slug samples) [
        | none ↦ (write_error 400 "invalid command_id", s)
        | some metrics ↦ stored "failed to insert metrics" (store.batch_insert_metrics s metrics)
      ]

  -- An error of the decrement is only logged.
  finish : Result (Unit {0}) × S → String → Response × S
  finish (ok u, s) slug =
      (respond 204 empty, (store.increment_runner_active_count s slug (ℤ.negsuc 0)).1)
  finish (err e, s) slug = (store_error e "command not found" "failed to update command status", s)

  unfoldable pub report_result :
      (String → Option Uuid) → Time → S → String → Option ResultRequest → Response × S
  unfolding finish
  report_result parse_uuid now s slug none = (write_error 400 "invalid request body", s)
  report_result parse_uuid now s slug (some req) = elim (parse_uuid req.command_id) [
    | none ↦ (write_error 400 "invalid command_id", s)
    | some id ↦ finish (store.update_command_status s id req.status (result_opts req now)) slug
  ]
