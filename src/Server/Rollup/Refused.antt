-- ===== src/Server/Rollup/Refused.antt =====
-- The rollup worker (server/internal/workers/rollup.go) on a database that does not know the units of
-- its statement.
use jackrabbit.Base.{◌≡◌, ◌-◌, ◌*◌, refl, ap, ◌∙◌, none, string_eq}
use jackrabbit.Models.{Time}
use jackrabbit.Db.State.{Db}
use jackrabbit.Db.Rollups.{rollup_metrics}
use jackrabbit.Db.Rollups.Refusals.{rollup_metrics_refused}
use jackrabbit.Db.Notify.{Engine}
use jackrabbit.Server.Store.{postgres}
use jackrabbit.Server.Rollup.{run, minute}

-- On a database whose date_trunc refuses the units `1 minute` and `5 minutes`, a run at any time
-- leaves the database as it is: no sample is rolled up.
pub run_refused :
    (e : Engine) (db : Db) (now : Time)
    → ((t : Time) → e.aggregates.date_trunc "1 minute" t ≡ none)
    → ((t : Time) → e.aggregates.date_trunc "5 minutes" t ≡ none)
    → run (postgres e) now db ≡ db
unfolding run
run_refused e db now no_minute no_minutes =
    let first =
      rollup_metrics_refused e.aggregates db "1m" "1 minute" (now - 3 * minute) (now - 2 * minute)
        refl no_minute in
    let second =
      rollup_metrics_refused e.aggregates db "5m" "5 minutes" (now - 11 * minute) (now - 6 * minute)
        refl no_minutes in
    ap (λ d. (rollup_metrics e.aggregates d "5m" (now - 11 * minute) (now - 6 * minute)).1) first
    ∙ second
