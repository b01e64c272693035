-- ===== src/Examples/Rollups.antt =====
-- RollupMetrics and the rollup worker of server/internal at concrete inputs.
use jackrabbit.Base.{◌≡◌, ◌*◌, ◌/◌, refl, string_eq, ◌==◌, if◌then◌else◌, none, some, length}
use jackrabbit.Results.{ok}
use jackrabbit.Db.Notify.{Engine}
use jackrabbit.Db.Rollups.{rollup_metrics}
use jackrabbit.Server.Store.{postgres}
use jackrabbit.Server.Rollup
use jackrabbit.Server.Rollup.Refused.{run_refused}
use jackrabbit.Examples.Samples.{measured, aggregates, engine}

-- Both samples of the first minute have a row of their own: one has no command.
two_rolled :
    ((rollup_metrics aggregates measured "1m" 60 120).0 ≡ ok 2)
    × (length (rollup_metrics aggregates measured "1m" 60 120).1.metric_rollups ≡ 2)
unfolding rollup_metrics jackrabbit.Table.Rows.select jackrabbit.Table.Rows.affected
    jackrabbit.Table.Rows.update
two_rolled = (refl, refl)

-- An engine that truncates to minutes and hours, and to nothing else.
abbrev strict : Engine
strict = record engine {
  aggregates = record aggregates {
    date_trunc = λ unit t.
        if unit == "minute"
        then some (t / 60 * 60)
        else if unit == "hour"
        then some (t / 3600 * 3600)
        else none;
  };
}

run_refused_example : Rollup.run (postgres strict) 1000 measured ≡ measured
run_refused_example = run_refused strict measured 1000 (λ t. refl) (λ t. refl)
