-- ===== src/Server/Config.antt =====
-- server/internal/config/config.go. `env` is os.Getenv after the .env file has been read: an unset
-- variable is "".
pub mod Loading
use jackrabbit.Base.{ℤ, String, string_eq, ◌==◌, if◌then◌else◌, Option, none, some, List, [], ◌∷◌}
use jackrabbit.Strconv.{atoi}
use jackrabbit.Duration.{times, millisecond, second}
use jackrabbit.Web.{joined}
use jackrabbit.Results.{Result, ok, err, failed}

pub record ServerConfig : Type 0 where
  pub port : String
  pub env : String

pub record PostgresConfig : Type 0 where
  pub host : String
  pub port : String
  pub database : String
  pub user : String
  pub password : String
  pub max_conns : ℤ
  pub queue_poll_interval : ℤ

pub record WorkersConfig : Type 0 where
  pub reaper_interval : ℤ
  pub runner_orphan_threshold : ℤ
  pub command_orphan_deadline : ℤ
  pub retention_interval : ℤ
  pub rollup_interval : ℤ
  pub log_retention_days_system : ℤ
  pub log_retention_days_command : ℤ
  pub log_retention_size_mb_command : ℤ
  pub metric_retention_days_raw : ℤ
  pub metric_retention_days_1m : ℤ
  pub metric_retention_days_5m : ℤ

pub record TraefikConfig : Type 0 where
  pub api_token : String

pub record Config : Type 0 where
  pub server : ServerConfig
  pub postgres : PostgresConfig
  pub workers : WorkersConfig
  pub traefik : TraefikConfig

abbrev or_default : Option ℤ → ℤ → ℤ
or_default none default_value = default_value
or_default (some n) default_value = n

module _ (env : String → String) where
  unfoldable pub get_env_or_default : String → String → String
  get_env_or_default key default_value = if env key == "" then default_value else env key

  unfoldable pub get_env_as_int_or_default : String → ℤ → ℤ
  unfolding atoi
  get_env_as_int_or_default key default_value =
      if env key == "" then default_value else or_default (atoi (env key)) default_value

  -- The configuration before Validate.
  unfoldable pub read_config : Config
  unfolding get_env_or_default get_env_as_int_or_default times
  read_config = record {
    server = record {
      port = get_env_or_default "SERVER_PORT" "8080";
      env = get_env_or_default "SERVER_ENV" "development";
    };
    postgres = record {
      host = get_env_or_default "POSTGRES_HOST" "postgres";
      port = get_env_or_default "POSTGRES_PORT" "5432";
      database = get_env_or_default "POSTGRES_DB" "runnerdb";
      user = get_env_or_default "POSTGRES_USER" "runner";
      password = get_env_or_default "POSTGRES_PASSWORD" "secret";
      max_conns = get_env_as_int_or_default "POSTGRES_MAX_CONNS" (ℤ.pos 20);
      queue_poll_interval =
          times (get_env_as_int_or_default "POSTGRES_QUEUE_POLL_INTERVAL_MS" (ℤ.pos 500))
            millisecond;
    };
    workers = record {
      reaper_interval = times (get_env_as_int_or_default "REAPER_INTERVAL_SECS" (ℤ.pos 30)) second;
      runner_orphan_threshold =
          times (get_env_as_int_or_default "RUNNER_ORPHAN_THRESHOLD_SECS" (ℤ.pos 90)) second;
      command_orphan_deadline =
          times (get_env_as_int_or_default "COMMAND_ORPHAN_DEADLINE_SECS" (ℤ.pos 300)) second;
      retention_interval =
          times (get_env_as_int_or_default "RETENTION_INTERVAL_SECS" (ℤ.pos 3600)) second;
      rollup_interval = times (get_env_as_int_or_default "ROLLUP_INTERVAL_SECS" (ℤ.pos 300)) second;
      log_retention_days_system = get_env_as_int_or_default "LOG_RETENTION_DAYS_SYSTEM" (ℤ.pos 7);
      log_retention_days_command =
          get_env_as_int_or_default "LOG_RETENTION_DAYS_COMMAND" (ℤ.pos 30);
      log_retention_size_mb_command =
          get_env_as_int_or_default "LOG_RETENTION_SIZE_MB_COMMAND" (ℤ.pos 100);
      metric_retention_days_raw = get_env_as_int_or_default "METRIC_RETENTION_DAYS_RAW" (ℤ.pos 1);
      metric_retention_days_1m = get_env_as_int_or_default "METRIC_RETENTION_DAYS_1M" (ℤ.pos 7);
      metric_retention_days_5m = get_env_as_int_or_default "METRIC_RETENTION_DAYS_5M" (ℤ.pos 30);
    };
    traefik = record { api_token = get_env_or_default "TRAEFIK_API_TOKEN" "secret" };
  }

-- The error, or none.
unfoldable pub validate : Config → Option String
validate c =
    if c.postgres.host == ""
    then some "POSTGRES_HOST is required"
    else if c.postgres.database == ""
    then some "POSTGRES_DB is required"
    else if c.postgres.user == ""
    then some "POSTGRES_USER is required"
    else if c.postgres.password == ""
    then some "POSTGRES_PASSWORD is required"
    else none

abbrev checked : Config → Option String → Result Config
checked c none = ok c
checked c (some message) = err (failed message)

unfoldable pub load : (String → String) → Result Config
unfolding read_config validate
load env = checked (read_config env) (validate (read_config env))

unfoldable pub dsn : PostgresConfig → String
dsn c = joined (
    "postgres://" ∷ c.user ∷ ":" ∷ c.password ∷ "@" ∷ c.host ∷ ":" ∷ c.port ∷ "/" ∷ c.database
    ∷ "?sslmode=disable" ∷ [])
