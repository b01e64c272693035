-- ===== src/Client/Executor.antt =====
-- client/internal/runner/executor.go, but for the streaming of output: the processes that run.
-- A process is what the operating system makes of it: how it starts and ends is given to the steps.
use jackrabbit.Base.{
  ℕ, String, ℤ, is_zero, if◌then◌else◌, Bool, true, false, Option, none, some, List, length,
}
use jackrabbit.Models.{Time}
use jackrabbit.Dict

pub record Execution : Type 0 where
  pub started_at : Time
  pub cancelled : Bool

-- The map `active`, under its mutex.
abbrev pub Executor : Type 0
Executor = List (String × Execution)

-- What StdoutPipe, StderrPipe and Start of os/exec answer.
pub data Start : Type 0 where
  no_pipe not_started started : Start

pub data ExecuteError : Type 0 where
  already_running no_pipes start_failed : ExecuteError

unfoldable pub with_start : Start → Time → String → Executor → Option ExecuteError × Executor
with_start no_pipe now id active = (some no_pipes, active)
with_start not_started now id active = (
  some start_failed,
  Dict.delete id (Dict.insert id (record { started_at = now; cancelled = false }) active),
)
with_start started now id active =
    (none, Dict.insert id (record { started_at = now; cancelled = false }) active)

-- Execute, called by one goroutine at a time as the runner does.
unfoldable pub execute_unless :
    Option Execution → Start → Time → String → Executor → Option ExecuteError × Executor
unfolding with_start
execute_unless (some running) start now id active = (some already_running, active)
execute_unless none start now id active = with_start start now id active

unfoldable pub execute : Start → Time → String → Executor → Option ExecuteError × Executor
unfolding execute_unless
execute start now id active = execute_unless (Dict.lookup id active) start now id active

-- The goroutine that waits: the process is over.
unfoldable pub exited : String → Executor → Executor
exited id active = Dict.delete id active

-- Kill cancels the process's context; true stands for the nil error.
unfoldable pub kill : String → Executor → Bool × Executor
kill id active = elim (Dict.lookup id active) [
  | none ↦ (false, active)
  | some running ↦ (true, Dict.insert id (record running { cancelled = true }) active)
]

unfoldable pub is_running : String → Executor → Bool
is_running id active = elim (Dict.lookup id active) [ none ↦ false | some running ↦ true ]

unfoldable pub active_count : Executor → ℕ
active_count active = length active

-- The error of the context that Execute was given, and what Wait and the process state answer.
pub data ContextError : Type 0 where
  live deadline_exceeded canceled : ContextError

pub data Wait : Type 0 where
  succeeded : Wait
  wait_failed : String → Option ℤ → Wait

-- A message before it is formatted.
pub data Message : Type 0 where
  no_message timed_out cancelled_message : Message
  exited_with : ℤ → Message
  error_text : String → Message

-- The exit code and the message of the result.
unfoldable pub outcome : ContextError → Wait → ℤ × Message
outcome ctx succeeded = (ℤ.pos 0, no_message)
outcome deadline_exceeded (wait_failed text code) = (ℤ.pos 124, timed_out)
outcome canceled (wait_failed text code) = (ℤ.pos 130, cancelled_message)
outcome live (wait_failed text none) = (ℤ.negsuc 0, error_text text)
outcome live (wait_failed text (some code)) =
    (code, if is_zero code then error_text text else exited_with code)
