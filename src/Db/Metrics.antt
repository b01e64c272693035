-- ===== src/Db/Metrics.antt =====
-- The metric operations of server/internal/store/postgres/store.go, but for the rollups.
use jackrabbit.Base.{suc, nat_eq, string_eq, ℤ, leb, if◌then◌else◌, Bool, ◌&&◌, List, [], ◌∷◌, ◌++◌}
use jackrabbit.Models.{Uuid, Metric}
use jackrabbit.Results.{Result, ok, err, failed}
use jackrabbit.Table
use jackrabbit.Db.State.{Db, runner_exists, command_exists, equals}
use jackrabbit.Db.Logs.{clamp_page, clamp_page_size, page_of}

abbrev insert_metric : Db → Metric → Db
insert_metric db m = record db {
  metrics = db.metrics ++ record m { id = db.next_metric_id } ∷ [];
  next_metric_id = suc db.next_metric_id;
}

insert_metrics : Db → List Metric → Result (Unit {0}) × Db
insert_metrics db [] = (ok tt, db)
insert_metrics db (m ∷ ms) =
    let rest = insert_metrics (insert_metric db m) ms in
    if command_exists db m.command_id && runner_exists db m.runner_slug
    then rest
    else (err (failed "insert metric"), insert_metric db m)

settle : Db → Result (Unit {0}) × Db → Result (Unit {0}) × Db
settle db (ok u, db') = (ok u, db')
settle db (err e, db') = (err e, record db { next_metric_id = db'.next_metric_id })

unfoldable pub batch_insert_metrics : Db → List Metric → Result (Unit {0}) × Db
unfolding insert_metrics settle
batch_insert_metrics db metrics = settle db (insert_metrics db metrics)

abbrev by_sample_ts : Metric → Metric → Bool
by_sample_ts m n = leb m.sample_ts n.sample_ts

-- The branch of GetMetrics for the resolutions "" and "raw".
unfoldable pub get_raw_metrics : Db → Uuid → ℤ → ℤ → Result (List Metric)
get_raw_metrics db id page page_size =
    page_of "get metrics"
      (Table.sort_by by_sample_ts (Table.select (λ m. equals m.command_id id) db.metrics))
      (clamp_page page) (clamp_page_size page_size)
