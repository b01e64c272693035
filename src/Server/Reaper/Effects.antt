-- ===== src/Server/Reaper/Effects.antt =====
-- What one run of the reaper (server/internal/workers/reaper.go) does to a command, on PostgreSQL.
use text.Mathlib.TextEquality.{eq_iff}
use jackrabbit.Base.{
  ◌-◌, ◌≡◌, ◌⊎◌, refl, ap, ap₂, ◌∙◌, String, string_eq, ◌==◌, Bool, true, false, ◌&&◌, Option, none,
  some, arith, if◌then◌else◌, Bool-cases, inl, inr,
}
use jackrabbit.Models.{Command, Time, Uuid}
use jackrabbit.Results.{ok}
use jackrabbit.Db.State.{Db}
use jackrabbit.Db.Runners.{mark_orphaned_runners}
use jackrabbit.Db.Commands.{
  get_command, is_expired, fail_with, fail_expired_commands, is_stuck, runner_away,
}
use jackrabbit.Db.Commands.Expiry.{
  IsExpired, is_expired_iff, IsStranded, is_stuck_iff, expired_row, stuck_row,
  mark_orphaned-get_command, mark_orphaned-runner_away,
}
use jackrabbit.Db.Notify.{Engine}
use jackrabbit.Server.Store.{postgres}
use jackrabbit.Server.Reaper.{run, runner_orphan_age}

-- The command of a row after a run.
reaped : Db → Time → Command → Command
reaped db now c =
    if is_expired now c
    then fail_with "deadline exceeded" db.now c
    else if is_stuck db c
    then fail_with "runner became unavailable" db.now c
    else c

expired-runner_away :
    (db : Db) (now : Time) (slug : Option String)
    → runner_away (fail_expired_commands db now).1 slug ≡ runner_away db slug
unfolding fail_expired_commands runner_away
expired-runner_away db now none = refl
expired-runner_away db now (some slug) = refl

marked_now :
    (db : Db) (now cutoff : Time)
    → (mark_orphaned_runners (fail_expired_commands db now).1 cutoff).1.now ≡ db.now
unfolding mark_orphaned_runners fail_expired_commands
marked_now db now cutoff = refl

abbrev settled : Command → Bool → Time → Command
settled c away now =
    if c.status == "running" && away then fail_with "runner became unavailable" now c else c

run_row :
    (e : Engine) (db : Db) (now now' : Time) (id : Uuid) (c : Command)
    → get_command db id ≡ ok c
    → get_command (run (postgres e) now now' db) id ≡ ok (reaped db now c)
unfolding run reaped
run_row e db now now' id c h =
    let db₁ = (fail_expired_commands db now).1 in
    let db₂ = (mark_orphaned_runners db₁ (now' - runner_orphan_age)).1 in
    let away : runner_away db₂ c.assigned_runner ≡ runner_away db c.assigned_runner =
      mark_orphaned-runner_away db₁ (now' - runner_orphan_age) c.assigned_runner
      ∙ expired-runner_away db now c.assigned_runner in
    let c₁ = if is_expired now c then fail_with "deadline exceeded" db.now c else c in
    stuck_row db₂ id c₁
      (mark_orphaned-get_command db₁ (now' - runner_orphan_age) id ∙ expired_row db now id c h)
    ∙ ap ok (elim (Bool-cases (is_expired now c)) [
      | inl t ↦ rw t refl
      | inr f ↦ rw f (ap₂ (settled c) away (marked_now db now (now' - runner_orphan_age)))
    ])

not-true : (b : Bool) → ¬ (b ≡ true) → b ≡ false
not-true true h = absurd (h refl)
not-true false h = refl

reaped_expired :
    (db : Db) (now : Time) (c : Command)
    → IsExpired now c
    → reaped db now c ≡ fail_with "deadline exceeded" db.now c
unfolding reaped
reaped_expired db now c x = rw ((is_expired_iff now c).1 x) refl

reaped_stranded :
    (db : Db) (now : Time) (c : Command)
    → ¬ IsExpired now c
    → IsStranded db c
    → reaped db now c ≡ fail_with "runner became unavailable" db.now c
unfolding reaped
reaped_stranded db now c fresh x =
    rw
      (
        not-true (is_expired now c) (λ t. fresh ((is_expired_iff now c).0 t)),
        (is_stuck_iff db c).1 x,
      )
      refl

reaped_spared :
    (db : Db) (now : Time) (c : Command)
    → ¬ IsExpired now c
    → ¬ IsStranded db c
    → reaped db now c ≡ c
unfolding reaped
reaped_spared db now c fresh well =
    rw
      (
        not-true (is_expired now c) (λ t. fresh ((is_expired_iff now c).0 t)),
        not-true (is_stuck db c) (λ t. well ((is_stuck_iff db c).0 t)),
      )
      refl

-- A run of the reaper fails a command that is pending or running past its deadline with the message
-- "deadline exceeded"; any other command that is running on an offline or orphaned runner with the
-- message "runner became unavailable"; and it leaves every other command as it is.
pub run_lem :
    (e : Engine) (db : Db) (now now' : Time) (id : Uuid) (c : Command)
    → get_command db id ≡ ok c
    → let after = get_command (run (postgres e) now now' db) id in
      let failed_by = λ (message : String). record c {
        status = "failed";
        error_message = some message;
        finished_at = some db.now;
      } in
      (IsExpired now c → after ≡ ok (failed_by "deadline exceeded"))
      × (¬ IsExpired now c → IsStranded db c → after ≡ ok (failed_by "runner became unavailable"))
      × (¬ IsExpired now c → ¬ IsStranded db c → after ≡ ok c)
run_lem e db now now' id c h =
    let row = run_row e db now now' id c h in
    (
      (λ x. row ∙ ap ok (reaped_expired db now c x)),
      (λ f x. row ∙ ap ok (reaped_stranded db now c f x)),
      (λ f w. row ∙ ap ok (reaped_spared db now c f w)),
    )

-- No command is both waiting for its runner and under way.
idle_status :
    (s : String) → (s ≡ "queued") ⊎ (s ≡ "claimed") → (s ≡ "pending") ⊎ (s ≡ "running") → ⊥
idle_status s a b = ground (
  arith,
  a,
  b,
  eq_iff "queued" "pending",
  eq_iff "queued" "running",
  eq_iff "claimed" "pending",
  eq_iff "claimed" "running",
)

-- A queued or claimed command outlives every run of the reaper unchanged, also past its deadline.
pub run_spares_queued :
    (e : Engine) (db : Db) (now now' : Time) (id : Uuid) (c : Command)
    → get_command db id ≡ ok c
    → (c.status ≡ "queued") ⊎ (c.status ≡ "claimed")
    → get_command (run (postgres e) now now' db) id ≡ ok c
run_spares_queued e db now now' id c h s =
    (run_lem e db now now' id c h).2 (λ x. idle_status c.status s x.under_way)
      (λ x. idle_status c.status s (inr x.running))
