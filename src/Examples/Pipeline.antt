-- ===== src/Examples/Pipeline.antt =====
-- Log lines on their way from the runner (client/internal) to the table of logs, at a concrete input.
use jackrabbit.Base.{ℕ, ℤ, refl, map, ◌≡◌, some, List, [], ◌∷◌, All, true, ◌+◌}
use mathlib.Core.List.{Perm}
use jackrabbit.Table
use jackrabbit.Db.Logs.{command_logs, of_command}
use jackrabbit.Models.{Time}
use mathlib.Core.List.Perm
use jackrabbit.Db.State.{runner_exists}
use jackrabbit.Server.Http.{respond, empty}
use jackrabbit.Server.Handlers.Runners.Batches.{accepted, posts}
use jackrabbit.Client.Shipping.{LogEntry, log_entry, new_shipper, add, flush}
use jackrabbit.Client.Shipping.Flushes.{Step, steps, added}
use jackrabbit.Client.Shipping.Stored.{ship, bodies}
use jackrabbit.Examples.Samples.{engine, db}
use jackrabbit.Base.{string_eq, ◌==◌}
use jackrabbit.Db.State.{has_nul}
use jackrabbit.Client.Lifecycle.{handle_result}
use jackrabbit.Client.Lifecycle.Limits
use jackrabbit.Client.Lifecycle.Limits.{streams, has_result, step}
use jackrabbit.Client.Shipping.Streamed.{lines_of, spells}
use jackrabbit.Client.Lifecycle.{Runner, Shipped, stream_log}
use jackrabbit.Client.Lifecycle.Sequences.{Line}
use jackrabbit.Client.Shipping.Streamed.{
  streamed, entry_of, output_log, output_line, is_line_of, streamed-command_logs,
}

-- Two lines in two batches, of which the second overtakes the first.
abbrev line_of : ℕ → LogEntry
line_of n = log_entry "1" "stdout" "hello" (ℤ.pos n) (30 + n)

abbrev shipping : List (Step LogEntry)
shipping =
    Step.adds (line_of 0) ∷ Step.flushes true ∷ Step.adds (line_of 1) ∷ Step.flushes true ∷ []

abbrev overtaken : List (List LogEntry)
overtaken = (line_of 1 ∷ []) ∷ (line_of 0 ∷ []) ∷ []

nothing_left : (steps new_shipper shipping).buffer ≡ []
unfolding steps add flush new_shipper
nothing_left = refl

two_batches : Perm overtaken (bodies (steps new_shipper shipping))
unfolding steps add flush new_shipper
two_batches = Perm.swap (line_of 0 ∷ []) (line_of 1 ∷ []) []

both_accepted : All (All (λ l. accepted engine.parse_uuid db l ≡ true)) (map ship overtaken)
unfolding ship has_nul Table.affected
both_accepted = ((refl, tt), ((refl, tt), tt))

alpha_exists : runner_exists db (some "alpha") ≡ true
unfolding Table.affected
alpha_exists = refl

no_lines : Table.select (of_command 1) db.logs ≡ []
unfolding Table.select
no_lines = refl

abbrev idle : Runner
idle = record {
  max_concurrency = ℤ.pos 1;
  executor = [];
  active_command = "1";
  log_seq = ("1", 0) ∷ [];
  shipped = [];
  reported = [];
}

abbrev hello : Limits.Step
hello = streams "1" "stdout" "hello"

-- Between the lines, another command's result arrives.
abbrev streaming : List Limits.Step
streaming = hello ∷ has_result "2" ∷ hello ∷ []

abbrev time : Shipped → Time
time s = 30 + s.seq

what_is_added : added shipping ≡ map (entry_of time) (streamed idle streaming)
unfolding added streamed step stream_log handle_result jackrabbit.Dict.lookup jackrabbit.Dict.insert
    jackrabbit.Dict.delete
what_is_added = refl

all_spelled :
    All
      (λ (l : Line). spells engine.parse_uuid 1 l.command_id ≡ (l.command_id == "1"))
      (lines_of streaming)
unfolding lines_of
all_spelled = (refl, (refl, tt))

streamed-command_logs_example :
    let (answers, db') = posts engine "alpha" db (map ship overtaken) in
    All (λ r. r ≡ respond 204 empty) answers
    × (map output_log (command_logs (λ logs. logs) db' 1)
        ≡ map output_line (Table.select (is_line_of "1") (lines_of streaming)))
streamed-command_logs_example =
    streamed-command_logs engine "alpha" db 1 "1" idle streaming time shipping overtaken
      (λ logs. logs) (λ logs. Perm.refl logs) alpha_exists all_spelled (refl, (refl, (refl, tt)))
      what_is_added nothing_left two_batches both_accepted no_lines
