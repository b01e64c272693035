-- ===== src/Db/Rollups/Outcome.antt =====
-- How a call of RollupMetrics of server/internal/store/postgres/store.go goes on or is refused.
use jackrabbit.Base.{◌≡◌, refl, ap, sym, nat_eq, string_eq, String, none, some, List, map, length}
use jackrabbit.Models.{Time, Metric}
use jackrabbit.Results.{ok, err, failed}
use jackrabbit.Table
use jackrabbit.Table.Rows.{length-select}
use jackrabbit.Db.State.{Db}
use jackrabbit.Db.Rollups.{
  Aggregates, Bucket, bucket_interval, is_pending, buckets, groups, rollup, rollup_metrics, roll,
  insert_rollups, rolled, mark_after, mark_rolled_up, put_rollups, roll_up,
}
use jackrabbit.Db.Rollups.Rows.{put_rollups-metrics}

abbrev pub pending : Db → Time → Time → List Metric
pending db start end = Table.select (is_pending start end) db.metrics

module _ (pg : Aggregates) (db : Db) (resolution unit : String) (start end : Time)
    (known : bucket_interval resolution ≡ some unit) where
  -- The call when the buckets have been computed.
  pub computed :
      (bs : List Bucket)
      → buckets (pg.date_trunc unit) (pending db start end) ≡ some bs
      → rollup_metrics pg db resolution start end
        ≡ mark_rolled_up start end
            (put_rollups (map (rollup pg unit resolution (pending db start end)) (groups bs)) db)
  unfolding rollup_metrics roll insert_rollups rolled mark_after
  computed bs h = rw (known, h) refl

  pub refused :
      buckets (pg.date_trunc unit) (pending db start end) ≡ none
      → rollup_metrics pg db resolution start end ≡ (err (failed "rollup metrics"), db)
  unfolding rollup_metrics roll insert_rollups rolled mark_after
  refused h = rw (known, h) refl

  module _ (bs : List Bucket)
      (all : buckets (pg.date_trunc unit) (pending db start end) ≡ some bs) where
    pub all_marked :
        ((rollup_metrics pg db resolution start end).0 ≡ ok (length (pending db start end)))
        × ((rollup_metrics pg db resolution start end).1.metrics
            ≡ Table.update (is_pending start end) roll_up db.metrics)
    unfolding mark_rolled_up
    all_marked =
        rw
          (
            computed bs all,
            put_rollups-metrics (map (rollup pg unit resolution (pending db start end)) (groups bs))
                db,
          )
          (ap ok (sym (length-select (is_pending start end) db.metrics)), refl)
