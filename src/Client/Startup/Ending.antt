-- ===== src/Client/Startup/Ending.antt =====
-- A run of client/internal/runner/lifecycle.go from its configuration on.
use jackrabbit.Base.{
  ℤ, ◌≤◌, pos_part, leb_ℤ, String, string_eq, ◌≡◌, ◌↔◌, refl, ◌∙◌, subst, true, Bool-cases, inl,
  inr, Option, none, some, List, [], ◌∷◌, length, arith,
}
use jackrabbit.Models.{Time, Payload}
use jackrabbit.Sdk.{Network, Outcome, done, failed}
use jackrabbit.Client.Config.{Config}
use jackrabbit.Client.Executor.{Start, active_count}
use jackrabbit.Client.Listener.{CommandEvent}
use jackrabbit.Client.Lifecycle.{
  Runner, cmd_of, accept, run_command, handle_command_event, stream_log, exits, handle_result,
}
use jackrabbit.Client.Lifecycle.Limits.{
  Step, handles, streams, ends, has_result, step, steps, WithinLimit, steps-WithinLimit,
}
use jackrabbit.Client.Startup.{
  Happening, context_done, channel_closed, arrives, meanwhile, Run, canceled, new_runner, register,
  main_loop, start_registered, start,
}

accept_keeps :
    (s : Start) (now : Time) (event : CommandEvent) (r : Runner) (cmd : Option String)
    → (accept s now event r cmd).max_concurrency ≡ r.max_concurrency
unfolding accept run_command
accept_keeps s now event r none = refl
accept_keeps s now event r (some cmd) = refl

handle_keeps :
    (s : Start) (now : Time) (event : CommandEvent) (r : Runner)
    → (handle_command_event s now event r).max_concurrency ≡ r.max_concurrency
unfolding handle_command_event
handle_keeps s now event r =
    elim (Bool-cases (leb_ℤ r.max_concurrency (ℤ.pos (active_count r.executor)))) [
      | inl t ↦ rw t refl
      | inr f ↦ rw f (accept_keeps s now event r (cmd_of event.payload))
    ]

step_keeps : (r : Runner) (s : Step) → (step r s).max_concurrency ≡ r.max_concurrency
unfolding step stream_log exits handle_result
step_keeps r (handles s now event) = handle_keeps s now event r
step_keeps r (streams id source line) = refl
step_keeps r (ends id) = refl
step_keeps r (has_result id) = refl

-- The runner of a run has taken the steps of what happened.
module _ (limit : ℤ) where
  abbrev Limited : Runner → Type 0
  Limited r = (r.max_concurrency ≡ limit) × WithinLimit r

  step-Limited : (r : Runner) (s : Step) → Limited r → Limited (step r s)
  unfolding steps
  step-Limited r s (same, v) = (step_keeps r s ∙ same, steps-WithinLimit r (s ∷ []) v)

  main_loop-Limited :
      (r : Runner) (hs : List Happening) → Limited r → Limited (main_loop r hs).runner
  unfolding main_loop
  main_loop-Limited r [] l = l
  main_loop-Limited r (context_done ∷ hs) l = l
  main_loop-Limited r (channel_closed ∷ hs) l = l
  main_loop-Limited r (arrives s now event ∷ hs) l =
      main_loop-Limited (step r (handles s now event)) hs (step-Limited r (handles s now event) l)
  main_loop-Limited r (meanwhile s ∷ hs) l = main_loop-Limited (step r s) hs (step-Limited r s l)

-- Whatever the server answers to the registration and whatever happens afterwards, a runner never
-- runs more commands than the configuration allows.
pub start_within_limit :
    (net : Network) (cfg : Config) (hs : List Happening)
    → length (start net cfg hs).runner.executor ≤ pos_part cfg.max_concurrency
unfolding start start_registered
start_within_limit net cfg hs = by_answer (register net cfg)
  where
    within :
        (r : Runner)
        → Limited cfg.max_concurrency r
        → length r.executor ≤ pos_part cfg.max_concurrency
    within r (same, v) = subst (λ m. length r.executor ≤ pos_part m) same v

    fresh : Limited cfg.max_concurrency (new_runner cfg)
    fresh = (refl, omega arith)

    by_answer :
        (o : Outcome Payload)
        → length (start_registered cfg hs o).runner.executor ≤ pos_part cfg.max_concurrency
    by_answer (failed e) = omega arith
    by_answer (done o) =
        within (main_loop (new_runner cfg) hs).runner
          (main_loop-Limited cfg.max_concurrency (new_runner cfg) hs fresh)

abbrev AsksIfDone : Run → Type 0
AsksIfDone run = (run.deregistered ≡ true) ↔ (run.ended ≡ some canceled)

main_loop-AsksIfDone : (r : Runner) (hs : List Happening) → AsksIfDone (main_loop r hs)
unfolding main_loop
main_loop-AsksIfDone r [] = ((λ h. absurd (ground arith)), (λ h. absurd (ground arith)))
main_loop-AsksIfDone r (context_done ∷ hs) = ((λ h. refl), (λ h. refl))
main_loop-AsksIfDone r (channel_closed ∷ hs) =
    ((λ h. absurd (ground arith)), (λ h. absurd (ground arith)))
main_loop-AsksIfDone r (arrives s now event ∷ hs) =
    main_loop-AsksIfDone (handle_command_event s now event r) hs
main_loop-AsksIfDone r (meanwhile s ∷ hs) = main_loop-AsksIfDone (step r s) hs

-- A run has asked to be deregistered exactly if it has returned because it saw its context done: not
-- if it was not registered, and not if it saw the event channel closed first.
pub start_deregisters :
    (net : Network) (cfg : Config) (hs : List Happening)
    → let run = start net cfg hs in (run.deregistered ≡ true) ↔ (run.ended ≡ some canceled)
unfolding start start_registered
start_deregisters net cfg hs = by_answer (register net cfg)
  where
    by_answer : (o : Outcome Payload) → AsksIfDone (start_registered cfg hs o)
    by_answer (failed e) = ((λ h. absurd (ground arith)), (λ h. absurd (ground arith)))
    by_answer (done o) = main_loop-AsksIfDone (new_runner cfg) hs
