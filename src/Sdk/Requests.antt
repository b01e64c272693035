-- ===== src/Sdk/Requests.antt =====
-- The methods of sdk/go/client.go that make one request.
use Prim.Native.String.{◌++◌ as text_append}
use jackrabbit.Base.{
  ℤ, String, string_eq, is_zero, ◌==◌, if◌then◌else◌, Bool, Option, none, some, List, [], ◌∷◌, ◌++◌,
  map,
}
use jackrabbit.Models.{Time, Payload}
use jackrabbit.Strconv.{print_int}
use jackrabbit.Web.{joined}
use jackrabbit.Sdk.{
  Client, Network, Outcome, do_request, string, strings, int, bool, moment, object, objects,
}

pub record RunnerConfig : Type 0 where
  pub slug : String
  pub name : String
  pub tags : List String
  pub concurrency_limit : ℤ
  pub gpu_capable : Bool

pub record RunnerFilter : Type 0 where
  pub status : String
  pub tags : List String

pub record CommandRequest : Type 0 where
  pub target_type : String
  pub target_value : String
  pub payload : Payload
  pub max_retries : ℤ
  pub timeout_secs : ℤ
  pub deadline : Option Time

pub record MetricOpts : Type 0 where
  pub resolution : String
  pub page : ℤ
  pub page_size : ℤ

-- A path below one runner or one command.
abbrev pub runner_path : String → String → String
runner_path slug rest = joined ("/api/v1/runners/" ∷ slug ∷ rest ∷ [])

abbrev pub command_path : String → String → String
command_path id rest = joined ("/api/v1/commands/" ∷ id ∷ rest ∷ [])

-- strings.Join(params, "&").
abbrev pub ampersands : List String → String
ampersands [] = ""
ampersands (p ∷ []) = p
ampersands (p ∷ q ∷ ps) = text_append p (text_append "&" (ampersands (q ∷ ps)))

abbrev query : List String → String
query [] = ""
query (p ∷ ps) = text_append "?" (ampersands (p ∷ ps))

-- The URL of ListRunners.
unfoldable pub list_path : Option RunnerFilter → String
list_path none = "/api/v1/runners"
list_path (some filter) = text_append "/api/v1/runners" (
    query (
      (if filter.status == "" then [] else text_append "status=" filter.status ∷ [])
      ++ map (λ tag. text_append "tags=" tag) filter.tags))

-- `if opts == nil`.
abbrev pub metric_opts : Option MetricOpts → MetricOpts
metric_opts none = record { resolution = "raw"; page = ℤ.pos 1; page_size = ℤ.pos 100 }
metric_opts (some opts) = opts

-- The status that ReportResult reports.
abbrev pub status_of : ℤ → String
status_of exit_code = if is_zero exit_code then "success" else "failed"

module _ (net : Network) (c : Client) where
  unfoldable pub register_runner : RunnerConfig → Outcome Payload
  unfolding do_request
  register_runner config =
      do_request net c "POST" "/api/v1/runners/register"
        (some (
          ("slug", string config.slug)
          ∷ ("name", string config.name)
          ∷ ("tags", strings config.tags)
          ∷ ("concurrency_limit", int config.concurrency_limit)
          ∷ ("gpu_capable", bool config.gpu_capable)
          ∷ []))
        (some net.as_object)

  unfoldable pub deregister_runner : String → Outcome Payload
  unfolding do_request
  deregister_runner slug = do_request net c "DELETE" (runner_path slug "") none none

  unfoldable pub heartbeat : String → Outcome Payload
  unfolding do_request
  heartbeat slug = do_request net c "POST" (runner_path slug "/heartbeat") none none

  unfoldable pub list_runners : Option RunnerFilter → Outcome (List Payload)
  unfolding do_request list_path
  list_runners filter = do_request net c "GET" (list_path filter) none (some net.as_objects)

  unfoldable pub get_runner : String → Outcome Payload
  unfolding do_request
  get_runner slug = do_request net c "GET" (runner_path slug "") none (some net.as_object)

  unfoldable pub send_command : CommandRequest → Outcome Payload
  unfolding do_request
  send_command req =
      do_request net c "POST" "/api/v1/commands"
        (some (
          ("target_type", string req.target_type)
          ∷ ("target_value", string req.target_value)
          ∷ ("payload", object req.payload)
          ∷ ("max_retries", int req.max_retries)
          ∷ ("timeout_secs", int req.timeout_secs)
          ∷ ("deadline", moment req.deadline)
          ∷ []))
        (some net.as_object)

  unfoldable pub get_command : String → Outcome Payload
  unfolding do_request
  get_command id = do_request net c "GET" (command_path id "") none (some net.as_object)

  unfoldable pub kill_command : String → Outcome Payload
  unfolding do_request
  kill_command id = do_request net c "POST" (command_path id "/kill") none none

  unfoldable pub report_result : String → String → ℤ → String → Outcome Payload
  unfolding do_request
  report_result slug command_id exit_code error_message =
      do_request net c "POST" (runner_path slug "/result")
        (some (
          ("command_id", string command_id)
          ∷ ("status", string (status_of exit_code))
          ∷ ("exit_code", int exit_code)
          ∷ ("error_message", string error_message)
          ∷ []))
        none

  unfoldable pub batch_insert_logs : String → List Payload → Outcome Payload
  unfolding do_request
  batch_insert_logs slug logs =
      do_request net c "POST" (runner_path slug "/logs") (some (("logs", objects logs) ∷ [])) none

  unfoldable pub batch_insert_metrics : String → List Payload → Outcome Payload
  unfolding do_request
  batch_insert_metrics slug metrics =
      do_request net c "POST" (runner_path slug "/metrics")
        (some (("metrics", objects metrics) ∷ [])) none

  unfoldable pub get_logs : String → ℤ → ℤ → Outcome (List Payload)
  unfolding do_request print_int
  get_logs command_id page page_size =
      do_request net c "GET"
        (command_path command_id
          (joined ("/logs?page=" ∷ print_int page ∷ "&page_size=" ∷ print_int page_size ∷ [])))
        none (some net.as_objects)

  unfoldable pub get_metrics : String → Option MetricOpts → Outcome (List Payload)
  unfolding do_request print_int
  get_metrics command_id opts =
      do_request net c "GET"
        (command_path command_id (
          joined (
            "/metrics?resolution="
            ∷ (metric_opts opts).resolution
            ∷ "&page="
            ∷ print_int (metric_opts opts).page
            ∷ "&page_size="
            ∷ print_int (metric_opts opts).page_size
            ∷ [])))
        none (some net.as_objects)
