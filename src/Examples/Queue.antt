-- ===== src/Examples/Queue.antt =====
-- The queue of server/internal/store/postgres/store.go and the reaper of
-- server/internal/workers/reaper.go at concrete inputs.
use mathlib.Core.List.{Perm}
use jackrabbit.Base.{◌++◌, ◌≡◌, ◌≢◌, ◌≤◌, inl, inr, refl, some, List, [], ◌∷◌, Memᴰ, arith}
use jackrabbit.Models.{Uuid, Command}
use jackrabbit.Results.{ok, err, not_found}
use jackrabbit.Table.Keys.{Distinct}
use jackrabbit.Db.Commands.{get_command, claim_next_command}
use jackrabbit.Db.Commands.Claim.{Claimable}
use jackrabbit.Db.Commands.Queue.{claim_next_command_takes, claim_next_command_refuses}
use jackrabbit.Db.Commands.Serving.{Request, served, served-Distinct}
use jackrabbit.Db.Commands.Conservation.{queued_ids, after_claims, served-Perm}
use jackrabbit.Server.Store.{postgres}
use jackrabbit.Server.Reaper.{run}
use jackrabbit.Server.Reaper.Effects.{run_lem, run_spares_queued}
use jackrabbit.Examples.Samples.{to_alpha, on_alpha, db, db-IsValid, engine}

abbrev claimed : Command
claimed = record to_alpha {
  status = "claimed";
  assigned_runner = some "alpha";
  claimed_at = some 60;
}

claims : (claim_next_command db "alpha" ("gpu" ∷ [])).0 ≡ ok claimed
unfolding claim_next_command jackrabbit.Table.Rows.select jackrabbit.Table.Rows.update
    jackrabbit.Table.Sorting.sort_by jackrabbit.Table.Rows.affected
claims = refl

claim_next_command_takes_example :
    let db' = (claim_next_command db "alpha" ("gpu" ∷ [])).1 in
    (c : Command) × (get_command db 1 ≡ ok c)
    × Claimable db "alpha" ("gpu" ∷ []) c
    × ((d : Command)
        → Memᴰ d db.commands
        → Claimable db "alpha" ("gpu" ∷ []) d
        → c.created_at ≤ d.created_at)
    × (claimed
        ≡ record c { status = "claimed"; assigned_runner = some "alpha"; claimed_at = some 60 })
    × (get_command db' 1 ≡ ok claimed)
    × ((other : Uuid) → other ≢ 1 → get_command db' other ≡ get_command db other)
claim_next_command_takes_example =
    claim_next_command_takes db "alpha" ("gpu" ∷ []) claimed db-IsValid claims

beta_claims : (claim_next_command db "beta" []).0 ≡ err not_found
unfolding claim_next_command jackrabbit.Table.Rows.select jackrabbit.Table.Sorting.sort_by
beta_claims = refl

claim_next_command_refuses_example : (claim_next_command db "beta" []).1 ≡ db
claim_next_command_refuses_example =
    (claim_next_command_refuses db "beta" []).1 not_found beta_claims

abbrev requests : List Request
requests =
    record { slug = "alpha"; tags = "gpu" ∷ []; at = 70; locked = 1 ∷ [] }
    ∷ record { slug = "alpha"; tags = "gpu" ∷ []; at = 71; locked = [] }
    ∷ []

served-Distinct_example : Distinct (λ (i : Uuid). i) (served db requests)
served-Distinct_example = served-Distinct db requests db-IsValid

served-Perm_example :
    Perm (queued_ids db) (served db requests ++ queued_ids (after_claims db requests))
served-Perm_example = served-Perm db requests db-IsValid

get-on_alpha : get_command db 3 ≡ ok on_alpha
unfolding get_command jackrabbit.Table.Rows.find
get-on_alpha = refl

get-to_alpha : get_command db 1 ≡ ok to_alpha
unfolding get_command jackrabbit.Table.Rows.find
get-to_alpha = refl

run_lem_example :
    get_command (run (postgres engine) 60 61 db) 3
    ≡ ok (record on_alpha {
      status = "failed";
      error_message = some "deadline exceeded";
      finished_at = some 60;
    })
run_lem_example =
    (run_lem engine db 60 61 3 on_alpha get-on_alpha).0
      (record { under_way = inr refl; too_late = (50, refl, omega arith) })

run_spares_queued_example : get_command (run (postgres engine) 500 501 db) 1 ≡ ok to_alpha
run_spares_queued_example = run_spares_queued engine db 500 501 1 to_alpha get-to_alpha (inl refl)
