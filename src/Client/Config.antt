-- ===== src/Client/Config.antt =====
-- client/internal/config/config.go. `env` is os.Getenv after the .env file has been read: an unset
-- variable is "".
pub mod Loading
use Prim.Native.Char.{Char, code}
use Prim.Native.String.{◌++◌ as text_append}
use jackrabbit.Base.{
  ℤ, String, nat_eq, string_eq, ltb_ℤ, ◌==◌, if◌then◌else◌, Bool, false, Option, none, some, List,
  [], ◌∷◌, map,
}
use jackrabbit.Strconv.{atoi, parse_bool}
use jackrabbit.Duration.{times, millisecond, second}
use jackrabbit.Results.{Result, ok, err, failed}
use jackrabbit.Client.Listener.{trim_space}

pub record Config : Type 0 where
  pub server_url : String
  pub runner_slug : String
  pub runner_name : String
  pub runner_tags : List String
  pub max_concurrency : ℤ
  pub gpu_capable : Bool
  pub log_batch_interval : ℤ
  pub metric_sample_interval : ℤ
  pub metric_batch_size : ℤ
  pub heartbeat_interval : ℤ
  pub api_token : String
  pub tls_skip_verify : Bool
  pub ca_cert_path : String

grow : Char → List String → List String
grow c [] = String.◌∷◌ c String.[] ∷ []
grow c (part ∷ parts) = String.◌∷◌ c part ∷ parts

-- strings.Split(s, ",").
unfoldable pub split_commas : String → List String
unfolding grow
split_commas String.[] = String.[] ∷ []
split_commas (String.◌∷◌ c s) =
    let parts = split_commas s in if code c == b',' then String.[] ∷ parts else grow c parts

-- The tags of CLIENT_RUNNER_TAGS; nil is no tags.
unfoldable pub tags_of : String → List String
unfolding split_commas trim_space
tags_of s = if s == "" then [] else map trim_space (split_commas s)

abbrev or_default {ℓ} : {A : Type ℓ} → Option A → A → A
or_default none default_value = default_value
or_default (some a) default_value = a

module _ (env : String → String) where
  unfoldable pub get_env_or_default : String → String → String
  get_env_or_default key default_value = if env key == "" then default_value else env key

  unfoldable pub get_env_as_int_or_default : String → ℤ → ℤ
  unfolding atoi
  get_env_as_int_or_default key default_value =
      if env key == "" then default_value else or_default (atoi (env key)) default_value

  unfoldable pub get_env_as_bool_or_default : String → Bool → Bool
  unfolding parse_bool
  get_env_as_bool_or_default key default_value =
      if env key == "" then default_value else or_default (parse_bool (env key)) default_value

  -- The configuration before Validate.
  unfoldable pub read_config : Config
  unfolding get_env_or_default get_env_as_int_or_default get_env_as_bool_or_default tags_of times
  read_config = record {
    server_url = get_env_or_default "CLIENT_SERVER_URL" "http://localhost:80";
    runner_slug = env "CLIENT_RUNNER_SLUG";
    runner_name = get_env_or_default "CLIENT_RUNNER_NAME" "";
    runner_tags = tags_of (get_env_or_default "CLIENT_RUNNER_TAGS" "");
    max_concurrency = get_env_as_int_or_default "CLIENT_MAX_CONCURRENCY" (ℤ.pos 4);
    gpu_capable = get_env_as_bool_or_default "CLIENT_GPU_CAPABLE" false;
    log_batch_interval =
        times (get_env_as_int_or_default "CLIENT_LOG_BATCH_INTERVAL_MS" (ℤ.pos 500)) millisecond;
    metric_sample_interval =
        times (get_env_as_int_or_default "CLIENT_METRIC_SAMPLE_INTERVAL_MS" (ℤ.pos 1000))
          millisecond;
    metric_batch_size = get_env_as_int_or_default "CLIENT_METRIC_BATCH_SIZE" (ℤ.pos 50);
    heartbeat_interval =
        times (get_env_as_int_or_default "CLIENT_HEARTBEAT_INTERVAL_SECS" (ℤ.pos 30)) second;
    api_token = get_env_or_default "CLIENT_API_TOKEN" "secret";
    tls_skip_verify = get_env_as_bool_or_default "CLIENT_TLS_SKIP_VERIFY" false;
    ca_cert_path = get_env_or_default "CLIENT_CA_CERT_PATH" "";
  }

abbrev named : Config → Config
named c = record c { runner_name = if c.runner_name == "" then c.runner_slug else c.runner_name }

-- Validate, which also names a runner that has no name.
unfoldable pub validate : Config → Result Config
validate c =
    if c.server_url == ""
    then err (failed "CLIENT_SERVER_URL is required")
    else if c.runner_slug == ""
    then err (failed "CLIENT_RUNNER_SLUG is required")
    else if ltb_ℤ c.max_concurrency (ℤ.pos 1)
    then err (failed "CLIENT_MAX_CONCURRENCY must be at least 1")
    else ok (named c)

unfoldable pub load : (String → String) → Result Config
unfolding read_config validate
load env = validate (read_config env)
