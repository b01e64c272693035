-- ===== src/Client/Lifecycle/Limits.antt =====
-- The concurrency limit of client/internal/runner/lifecycle.go.
use jackrabbit.Base.{
  suc, ◌≤◌, String, ℤ, pos_part, string_eq, leb_ℤ, ◌≡◌, false, Option, none, some, List, [], ◌∷◌,
  length, arith, Bool-cases, inl, inr,
}
use jackrabbit.Models.{Time}
use jackrabbit.Dict
use jackrabbit.Dict.{lookup-insert}
use jackrabbit.Client.Executor.{
  Executor, Execution, Start, no_pipe, not_started, started, execute, execute_unless, with_start,
  exited, active_count,
}
use jackrabbit.Client.Listener.{CommandEvent}
use jackrabbit.Client.Lifecycle.{
  Runner, cmd_of, accept, run_command, handle_command_event, stream_log, exits, handle_result,
}

-- What happens to a runner.
pub data Step : Type 0 where
  handles : Start → Time → CommandEvent → Step
  streams : String → String → String → Step
  ends : String → Step
  has_result : String → Step

unfoldable pub step : Runner → Step → Runner
step r (handles start now event) = handle_command_event start now event r
step r (streams id source line) = stream_log id source line r
step r (ends id) = exits id r
step r (has_result id) = handle_result id r

unfoldable pub steps : Runner → List Step → Runner
unfolding step
steps r [] = r
steps r (s ∷ ss) = steps (step r s) ss

abbrev pub WithinLimit : Runner → Type 0
WithinLimit r = length r.executor ≤ pos_part r.max_concurrency

length-insert :
    (id : String) (x : Execution) (m : Executor) → length (Dict.insert id x m) ≤ suc (length m)
unfolding Dict.insert
length-insert id x [] = omega arith
length-insert id x ((k, y) ∷ m) = ground (arith, length-insert id x m)

length-delete : (id : String) (m : Executor) → length (Dict.delete id m) ≤ length m
unfolding Dict.delete
length-delete id [] = omega arith
length-delete id ((k, y) ∷ m) = ground (arith, length-delete id m)

length-delete-insert :
    (id : String) (x : Execution) (m : Executor)
    → length (Dict.delete id (Dict.insert id x m)) ≤ suc (length m)
length-delete-insert id x m =
    omega (arith, length-delete id (Dict.insert id x m), length-insert id x m)

length-with_start :
    (start : Start) (now : Time) (id : String) (m : Executor)
    → length (with_start start now id m).1 ≤ suc (length m)
unfolding with_start
length-with_start no_pipe now id m = omega arith
length-with_start not_started now id m =
    length-delete-insert id (record { started_at = now; cancelled = false }) m
length-with_start started now id m =
    length-insert id (record { started_at = now; cancelled = false }) m

length-execute :
    (start : Start) (now : Time) (id : String) (m : Executor) (o : Option Execution)
    → length (execute_unless o start now id m).1 ≤ suc (length m)
unfolding execute_unless
length-execute start now id m none = length-with_start start now id m
length-execute start now id m (some running) = omega arith

run_command-WithinLimit :
    (start : Start) (now : Time) (id : String) (r : Runner)
    → leb_ℤ r.max_concurrency (ℤ.pos (length r.executor)) ≡ false
    → WithinLimit (run_command start now id r)
unfolding run_command execute
run_command-WithinLimit start now id r f = bounded r.max_concurrency f
  where
    bounded :
        (m : ℤ)
        → leb_ℤ m (ℤ.pos (length r.executor)) ≡ false
        → length (execute start now id r.executor).1 ≤ pos_part m
    bounded (ℤ.pos n) f =
        ground (arith, f, length-execute start now id r.executor (Dict.lookup id r.executor))
    bounded (ℤ.negsuc n) f = absurd (ground (arith, f))

accept-WithinLimit :
    (start : Start) (now : Time) (event : CommandEvent) (r : Runner) (cmd : Option String)
    → WithinLimit r
    → leb_ℤ r.max_concurrency (ℤ.pos (length r.executor)) ≡ false
    → WithinLimit (accept start now event r cmd)
unfolding accept
accept-WithinLimit start now event r none v f = v
accept-WithinLimit start now event r (some cmd) v f =
    run_command-WithinLimit start now event.command_id r f

handle-WithinLimit :
    (start : Start) (now : Time) (event : CommandEvent) (r : Runner)
    → WithinLimit r
    → WithinLimit (handle_command_event start now event r)
unfolding handle_command_event active_count
handle-WithinLimit start now event r v =
    elim (Bool-cases (leb_ℤ r.max_concurrency (ℤ.pos (length r.executor)))) [
      | inl t ↦ rw t v
      | inr f ↦ rw f (accept-WithinLimit start now event r (cmd_of event.payload) v f)
    ]

step-WithinLimit : (r : Runner) (s : Step) → WithinLimit r → WithinLimit (step r s)
unfolding step stream_log exits exited handle_result
step-WithinLimit r (handles start now event) v = handle-WithinLimit start now event r v
step-WithinLimit r (streams id source line) v = v
step-WithinLimit r (ends id) v = omega (arith, v, length-delete id r.executor)
step-WithinLimit r (has_result id) v = v

-- Whatever happens to a runner that starts within its limit, it never runs more commands than its
-- limit allows.
pub steps-WithinLimit : (r : Runner) (ss : List Step) → WithinLimit r → WithinLimit (steps r ss)
unfolding steps
steps-WithinLimit r [] v = v
steps-WithinLimit r (s ∷ ss) v = steps-WithinLimit (step r s) ss (step-WithinLimit r s v)
