-- ===== src/Server/Handlers/Commands.antt =====
-- server/internal/api/handlers/commands.go.
pub mod Choice
pub mod Sent
pub mod Tagged
pub mod Answered
use jackrabbit.Base.{
  ℕ, String, ℤ, string_eq, ltb_ℤ, leb_ℤ, is_zero, ◌==◌, if◌then◌else◌, Bool, ◌||◌, ◌&&◌, Option,
  none, some, List, [], ◌∷◌,
}
use jackrabbit.Models.{Time, Uuid, Payload, Runner, Command, Log, Metric}
use jackrabbit.Results.{Result, ok, err, Error, not_found}
use jackrabbit.Server.Store.{Store}
use jackrabbit.Server.Http.{Response, Body, empty, command, logs, metrics, write_error, respond}
use jackrabbit.Strconv.{atoi}

pub record CommandRequest : Type 0 where
  pub target_type : String
  pub target_value : String
  pub payload : Payload
  pub max_retries : ℤ
  pub timeout_secs : ℤ
  pub deadline : Option Time

-- `if req.TimeoutSecs == 0 { req.TimeoutSecs = 300 }`.
abbrev pub with_timeout : CommandRequest → CommandRequest
with_timeout req = record req {
  timeout_secs = if is_zero req.timeout_secs then ℤ.pos 300 else req.timeout_secs;
}

-- The models.Command of the request; fields that Send does not set have Go's zero values.
unfoldable pub queued_command : CommandRequest → Command
queued_command req = record {
  id = 0;
  target_type = req.target_type;
  target_value = req.target_value;
  payload = req.payload;
  status = "queued";
  assigned_runner = none;
  retry_count = ℤ.pos 0;
  max_retries = req.max_retries;
  timeout_secs = req.timeout_secs;
  exit_code = none;
  error_message = none;
  kill_requested_at = none;
  deadline = req.deadline;
  created_at = 0;
  claimed_at = none;
  started_at = none;
  finished_at = none;
}

abbrev pub lesser : Runner → Runner → Runner
lesser best r = if ltb_ℤ r.active_count best.active_count then r else best

-- The loop of Send that keeps the runner with the fewest active commands.
unfoldable pub least_busy : Runner → List Runner → Runner
least_busy best [] = best
least_busy best (r ∷ rs) = least_busy (lesser best r) rs

-- Get and Kill answer an error of the store so.
abbrev pub store_error : Error → String → String → Response
store_error not_found missing broken = write_error 404 missing
store_error _ missing broken = write_error 500 broken

-- `if p, err := strconv.Atoi(pageStr); err == nil && p > 0 { page = p }`.
abbrev pub page_param : String → ℤ
page_param s = elim (atoi s) [ none ↦ ℤ.pos 1 | some p ↦ if leb_ℤ (ℤ.pos 1) p then p else ℤ.pos 1 ]

abbrev pub page_size_param : String → ℤ
page_size_param s = elim (atoi s) [
  | none ↦ ℤ.pos 100
  | some n ↦ if leb_ℤ (ℤ.pos 1) n && leb_ℤ n (ℤ.pos 1000) then n else ℤ.pos 100
]

module _ {S : Type 0} (store : Store S) where
  unfoldable pub notify_least_busy : Result (List Runner) × S → Uuid → S
  unfolding least_busy
  notify_least_busy (err e, s) id = s
  notify_least_busy (ok [], s) id = s
  notify_least_busy (ok (r ∷ rs), s) id = (store.notify_runner s (least_busy r (r ∷ rs)).slug id).1

  -- The errors of NotifyRunner and ListRunners are only logged.
  unfoldable pub dispatch_created : S → CommandRequest → Uuid → S
  unfolding notify_least_busy
  dispatch_created s req id =
      if req.target_type == "slug" || req.target_type == "runner"
      then (store.notify_runner s req.target_value id).1
      else if req.target_type == "tag"
      then notify_least_busy (store.list_runners s (req.target_value ∷ []) "online") id
      else s

  created_response : Result Command × S → CommandRequest → Response × S
  unfolding dispatch_created
  created_response (err e, s) req = (write_error 500 "failed to create command", s)
  created_response (ok created, s) req =
      (respond 200 (command created), dispatch_created s req created.id)

  create : Uuid → S → CommandRequest → Response × S
  unfolding created_response queued_command
  create new_id s req = created_response (store.insert_command s new_id (queued_command req)) req

  -- `new_id` is the UUID that the database will draw.
  unfoldable pub send : Uuid → S → Option CommandRequest → Response × S
  unfolding create
  send new_id s none = (write_error 400 "invalid request body", s)
  send new_id s (some req) =
      if req.target_type == "" || req.target_value == ""
      then (write_error 400 "target_type and target_value are required", s)
      else create new_id s (with_timeout req)

  unfoldable pub got : Result Command × S → Response × S
  got (ok c, s) = (respond 200 (command c), s)
  got (err e, s) = (store_error e "command not found" "failed to retrieve command", s)

  -- Get, when the identifier has been scanned.
  unfoldable pub get_scanned : S → Option Uuid → Response × S
  unfolding got
  get_scanned s none = (write_error 400 "invalid command id", s)
  get_scanned s (some id) = got (store.get_command s id)

  unfoldable pub get : (String → Option Uuid) → S → String → Response × S
  unfolding get_scanned
  get parse_uuid s id_str = get_scanned s (parse_uuid id_str)

  unfoldable pub killed : Result (Unit {0}) × S → Response × S
  killed (ok u, s) = (respond 204 empty, s)
  killed (err e, s) = (store_error e "command not found or not running" "failed to kill command", s)

  unfoldable pub kill_scanned : S → Option Uuid → Response × S
  unfolding killed
  kill_scanned s none = (write_error 400 "invalid command id", s)
  kill_scanned s (some id) = killed (store.set_command_kill_requested s id)

  unfoldable pub kill : (String → Option Uuid) → S → String → Response × S
  unfolding kill_scanned
  kill parse_uuid s id_str = kill_scanned s (parse_uuid id_str)

  read_logs : Result (List Log) × S → Response × S
  read_logs (ok ls, s) = (respond 200 (logs ls), s)
  read_logs (err e, s) = (write_error 500 "failed to retrieve logs", s)

  read_metrics : Result (List Metric) × S → Response × S
  read_metrics (ok ms, s) = (respond 200 (metrics ms), s)
  read_metrics (err e, s) = (write_error 500 "failed to retrieve metrics", s)

  unfoldable pub get_metrics :
      (String → Option Uuid) → S → String → String → String → String → Response × S
  unfolding read_metrics
  get_metrics parse_uuid s id_str resolution page_str size_str = elim (parse_uuid id_str) [
    | none ↦ (write_error 400 "invalid command id", s)
    | some id ↦ read_metrics (
        store.get_metrics s id (if resolution == "" then "raw" else resolution)
          (page_param page_str) (page_size_param size_str))
  ]

  -- A parameter that the query lacks is "".
  unfoldable pub get_logs : (String → Option Uuid) → S → String → String → String → Response × S
  unfolding read_logs
  get_logs parse_uuid s id_str page_str size_str = elim (parse_uuid id_str) [
    | none ↦ (write_error 400 "invalid command id", s)
    | some id ↦ read_logs (store.get_logs s id (page_param page_str) (page_size_param size_str))
  ]
