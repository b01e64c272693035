-- ===== src/Client/Lifecycle.antt =====
-- client/internal/runner/lifecycle.go: the commands that a runner accepts, and the numbers of their
-- log lines.
pub mod Limits
pub mod Sequences
use jackrabbit.Base.{
  ℕ, suc, String, ℤ, string_eq, leb_ℤ, ◌==◌, if◌then◌else◌, Bool, Option, none, some, List, [], ◌∷◌,
  ◌++◌,
}
use jackrabbit.Models.{Time, Payload, PayloadValue, text, other}
use jackrabbit.Dict
use jackrabbit.Client.Executor.{Executor, Start, execute, exited, active_count}
use jackrabbit.Client.Listener.{CommandEvent}

-- A line that was given to the log shipper, with its number. An int64 counts up from 0, and no log
-- is long enough to leave it.
pub record Shipped : Type 0 where
  pub command_id : String
  pub source : String
  pub line : String
  pub seq : ℕ

pub record Runner : Type 0 where
  pub max_concurrency : ℤ
  pub executor : Executor
  pub active_command : String
  pub log_seq : List (String × ℕ)
  pub shipped : List Shipped
  -- The commands whose results are reported.
  pub reported : List String

abbrev text_of : Option PayloadValue → Option String
text_of (some (text s)) = some s
text_of _ = none

-- `event.Payload["cmd"].(string)`.
unfoldable pub cmd_of : Payload → Option String
unfolding Dict.lookup
cmd_of payload = text_of (Dict.lookup "cmd" payload)

-- From "Set active command" on. An error of Execute is only logged.
unfoldable pub run_command : Start → Time → String → Runner → Runner
run_command start now id r = record r {
  active_command = id;
  log_seq = Dict.insert id 0 r.log_seq;
  executor = (execute start now id r.executor).1;
}

unfoldable pub accept : Start → Time → CommandEvent → Runner → Option String → Runner
unfolding run_command
accept start now event r none = r
accept start now event r (some cmd) = run_command start now event.command_id r

unfoldable pub handle_command_event : Start → Time → CommandEvent → Runner → Runner
unfolding active_count cmd_of accept
handle_command_event start now event r =
    if leb_ℤ r.max_concurrency (ℤ.pos (active_count r.executor))
    then r
    else accept start now event r (cmd_of event.payload)

-- A missing key reads as 0.
abbrev pub seq_of : Option ℕ → ℕ
seq_of none = 0
seq_of (some n) = n

-- streamLogs for one line.
unfoldable pub stream_log : String → String → String → Runner → Runner
stream_log id source line r =
    let seq = seq_of (Dict.lookup id r.log_seq) in
    record r {
      log_seq = Dict.insert id (suc seq) r.log_seq;
      shipped =
          r.shipped ++ record { command_id = id; source = source; line = line; seq = seq } ∷ [];
    }

unfoldable pub exits : String → Runner → Runner
exits id r = record r { executor = exited id r.executor }

unfoldable pub handle_result : String → Runner → Runner
handle_result id r = record r {
  active_command = if r.active_command == id then "" else r.active_command;
  log_seq = Dict.delete id r.log_seq;
  reported = r.reported ++ id ∷ [];
}
