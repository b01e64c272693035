-- ===== src/Db/Rollups/Rows.antt =====
-- What the first statement of RollupMetrics (server/internal/store/postgres/store.go) leaves alone.
use jackrabbit.Base.{◌≡◌, refl, nat_eq, string_eq, List, [], ◌∷◌}
use jackrabbit.Models.{MetricRollup}
use jackrabbit.Db.State.{Db}
use jackrabbit.Db.Rollups.{put_rollup, put_rollups}

-- The samples stay as they are.
pub put_rollups-metrics :
    (rows : List MetricRollup) (db : Db) → (put_rollups rows db).metrics ≡ db.metrics
unfolding put_rollups put_rollup
put_rollups-metrics [] db = refl
put_rollups-metrics (row ∷ rows) db = put_rollups-metrics rows (put_rollup row db)
