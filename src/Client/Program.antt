-- ===== src/Client/Program.antt =====
-- runRunner of client/cmd/runner/main.go: a run of the program, from the environment to its end.
use jackrabbit.Base.{String, ◌++◌, Option, none, some, List}
use jackrabbit.Results.{Result, ok, err, Error}
use jackrabbit.Sdk.{Network}
use jackrabbit.Client.Config.{Config, load}
use jackrabbit.Client.Startup.{
  Happening, StartError, canceled, connection_lost, not_registered, Run, start,
}

-- The cases of the inner select, which gives the runner time to clean up.
pub data Cleanup : Type 0 where
  start_ended : Cleanup
  context_done : Cleanup

-- The cases of the outer select. After a signal the context is cancelled, and more of Start may happen
-- before the inner select goes on.
pub data Wake : Type 0 where
  start_returns : Wake
  interrupted : List Happening → Cleanup → Wake

pub data ProgramError : Type 0 where
  not_configured : Error → ProgramError
  runner_error : StartError → ProgramError

-- What the runner has done, where there is one, and the error of the command.
pub record Exit : Type 0 where
  pub run : Option Run
  pub error : Option ProgramError

-- `if err != nil && err != context.Canceled`.
abbrev reported : Option StartError → Option ProgramError
reported none = none
reported (some canceled) = none
reported (some connection_lost) = some (ProgramError.runner_error connection_lost)
reported (some (not_registered e)) = some (ProgramError.runner_error (not_registered e))

abbrev pub returned : Run → Exit
returned run = record { run = some run; error = reported run.ended }

unfoldable pub select_wake : Network → Config → List Happening → Wake → Exit
select_wake net cfg hs Wake.start_returns = returned (start net cfg hs)
select_wake net cfg hs (Wake.interrupted more cleanup) = record {
  run = some (start net cfg (hs ++ more));
  error = none;
}

run_configured : Network → List Happening → Wake → Result Config → Exit
unfolding select_wake
run_configured net hs wake (err e) = record {
  run = none;
  error = some (ProgramError.not_configured e);
}
run_configured net hs wake (ok cfg) = select_wake net cfg hs wake

-- `hs` is what happens in Start before the outer select goes on.
unfoldable pub run_runner : (String → String) → Network → List Happening → Wake → Exit
unfolding run_configured
run_runner env net hs wake = run_configured net hs wake (load env)
