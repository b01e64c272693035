-- ===== src/Db/Rollups.antt =====
-- The metric rollups of server/internal/store/postgres/store.go: RollupMetrics, and GetMetrics with
-- getMetricRollups.
pub mod Buckets
pub mod Rows
pub mod Outcome
pub mod Refusals
use jackrabbit.Base.{
  ℕ, suc, nat_eq, string_eq, String, ℤ, leb, ltb, ◌==◌, if◌then◌else◌, Bool, true, false, ◌&&◌,
  ◌||◌, not, Option, none, some, any_of, List, [], ◌∷◌, ◌++◌, map, Eq,
}
use jackrabbit.Models.{Time, Uuid, Float64, Metric, MetricRollup}
use jackrabbit.Results.{Result, ok, err, failed}
use jackrabbit.Table
use jackrabbit.Db.State.{Db, both_equal, alike, equals}
use jackrabbit.Db.Logs.{clamp_page, clamp_page_size, page_of}
use jackrabbit.Db.Metrics.{get_raw_metrics}

-- What PostgreSQL computes in the statement: date_trunc, or none where it refuses the unit, and AVG of
-- a column.
pub record Aggregates : Type 0 where
  pub date_trunc : String → Time → Option Time
  pub avg : List (Option Float64) → Option Float64

abbrev pub bucket_interval : String → Option String
bucket_interval resolution =
    if resolution == "1m"
    then some "1 minute"
    else if resolution == "5m"
    then some "5 minutes"
    else none

-- The WHERE clause of both statements.
unfoldable pub is_pending : Time → Time → Metric → Bool
is_pending start end m = leb start m.sample_ts && ltb m.sample_ts end && not m.rolled_up

-- GROUP BY command_id, runner_slug, bucket_ts.
pub record Bucket : Type 0 where
  pub command_id : Option Uuid
  pub runner_slug : Option String
  pub bucket_ts : Time

abbrev pub bucket_at : Metric → Time → Bucket
bucket_at m t = record { command_id = m.command_id; runner_slug = m.runner_slug; bucket_ts = t }

abbrev pub same_bucket : Bucket → Bucket → Bool
same_bucket b c =
    alike b.command_id c.command_id
    && alike b.runner_slug c.runner_slug
    && b.bucket_ts == c.bucket_ts

abbrev pub in_bucket : Bucket → Metric → Option Time → Bool
in_bucket b m none = false
in_bucket b m (some t) = same_bucket (bucket_at m t) b

cons_bucket : Metric → Option Time → Option (List Bucket) → Option (List Bucket)
cons_bucket m none bs = none
cons_bucket m (some t) none = none
cons_bucket m (some t) (some bs) = some (bucket_at m t ∷ bs)

-- The bucket of each sample; the statement fails at one whose bucket cannot be computed.
unfoldable pub buckets : (Time → Option Time) → List Metric → Option (List Bucket)
unfolding cons_bucket
buckets trunc [] = some []
buckets trunc (m ∷ ms) = cons_bucket m (trunc m.sample_ts) (buckets trunc ms)

unfoldable pub has_bucket : List Bucket → Bucket → Bool
has_bucket [] b = false
has_bucket (c ∷ cs) b = same_bucket b c || has_bucket cs b

unfoldable pub groups : List Bucket → List Bucket
unfolding has_bucket
groups [] = []
groups (b ∷ bs) = if has_bucket (groups bs) b then groups bs else b ∷ groups bs

-- The row of a group.
unfoldable pub rollup : Aggregates → String → String → List Metric → Bucket → MetricRollup
rollup pg unit resolution samples b =
    let of_group = Table.select (λ m. in_bucket b m (pg.date_trunc unit m.sample_ts)) samples in
    record {
      id = 0;
      command_id = b.command_id;
      runner_slug = b.runner_slug;
      resolution = resolution;
      bucket_ts = b.bucket_ts;
      avg_cpu = pg.avg (map (λ m. m.cpu_percent) of_group);
      avg_mem = pg.avg (map (λ m. m.mem_mb) of_group);
      avg_gpu = pg.avg (map (λ m. m.gpu_percent) of_group);
      avg_gpu_mem = pg.avg (map (λ m. m.gpu_mem_mb) of_group);
    }

-- ON CONFLICT (command_id, runner_slug, resolution, bucket_ts): a NULL is in conflict with nothing.
abbrev pub conflicts : MetricRollup → MetricRollup → Bool
conflicts row old =
    both_equal old.command_id row.command_id
    && both_equal old.runner_slug row.runner_slug
    && old.resolution == row.resolution
    && old.bucket_ts == row.bucket_ts

-- DO UPDATE SET.
abbrev pub averaged : MetricRollup → MetricRollup → MetricRollup
averaged row old = record old {
  avg_cpu = row.avg_cpu;
  avg_mem = row.avg_mem;
  avg_gpu = row.avg_gpu;
  avg_gpu_mem = row.avg_gpu_mem;
}

abbrev pub insert_rollup : ℕ → MetricRollup → List MetricRollup → List MetricRollup
insert_rollup id row rows = rows ++ record row { id = id } ∷ []

-- The foreign keys hold, since the samples' do. A conflict uses up its number.
unfoldable pub put_rollup : MetricRollup → Db → Db
put_rollup row db = record db {
  metric_rollups =
      if Table.affected (conflicts row) db.metric_rollups == 0
      then insert_rollup db.next_rollup_id row db.metric_rollups
      else Table.update (conflicts row) (averaged row) db.metric_rollups;
  next_rollup_id = suc db.next_rollup_id;
}

unfoldable pub put_rollups : List MetricRollup → Db → Db
unfolding put_rollup
put_rollups [] db = db
put_rollups (row ∷ rows) db = put_rollups rows (put_rollup row db)

abbrev pub roll_up : Metric → Metric
roll_up m = record m { rolled_up = true }

-- The second statement, `UPDATE metrics SET rolled_up = true`.
unfoldable pub mark_rolled_up : Time → Time → Db → Result ℕ × Db
unfolding is_pending
mark_rolled_up start end db = (
  ok (Table.affected (is_pending start end) db.metrics),
  record db { metrics = Table.update (is_pending start end) roll_up db.metrics },
)

rolled : Aggregates → String → String → List Metric → Option (List Bucket) → Db → Option Db
unfolding groups rollup put_rollups
rolled pg unit resolution samples none db = none
rolled pg unit resolution samples (some bs) db =
    some (put_rollups (map (rollup pg unit resolution samples) (groups bs)) db)

-- The first statement.
unfoldable pub insert_rollups : Aggregates → String → String → Time → Time → Db → Option Db
unfolding rolled buckets is_pending
insert_rollups pg unit resolution start end db =
    let samples = Table.select (is_pending start end) db.metrics in
    rolled pg unit resolution samples (buckets (pg.date_trunc unit) samples) db

mark_after : Time → Time → Db → Option Db → Result ℕ × Db
unfolding mark_rolled_up
mark_after start end db none = (err (failed "rollup metrics"), db)
mark_after start end db (some db') = mark_rolled_up start end db'

roll : Aggregates → String → Time → Time → Db → Option String → Result ℕ × Db
unfolding mark_after insert_rollups
roll pg resolution start end db none = (err (failed "unsupported resolution"), db)
roll pg resolution start end db (some unit) =
    mark_after start end db (insert_rollups pg unit resolution start end db)

-- RollupMetrics, with no other transaction between its two statements.
unfoldable pub rollup_metrics : Aggregates → Db → String → Time → Time → Result ℕ × Db
unfolding roll
rollup_metrics pg db resolution start end =
    roll pg resolution start end db (bucket_interval resolution)

abbrev by_bucket_ts : MetricRollup → MetricRollup → Bool
by_bucket_ts r q = leb r.bucket_ts q.bucket_ts

-- A rollup as a sample; the field that is not scanned has Go's zero value.
abbrev pub metric_of : MetricRollup → Metric
metric_of r = record {
  id = r.id;
  command_id = r.command_id;
  runner_slug = r.runner_slug;
  cpu_percent = r.avg_cpu;
  mem_mb = r.avg_mem;
  gpu_percent = r.avg_gpu;
  gpu_mem_mb = r.avg_gpu_mem;
  rolled_up = false;
  sample_ts = r.bucket_ts;
}

abbrev pub of_resolution : Uuid → String → MetricRollup → Bool
of_resolution id resolution r = equals r.command_id id && r.resolution == resolution

-- getMetricRollups, at a page and a page size that GetMetrics has set right.
unfoldable pub get_metric_rollups : Db → Uuid → String → ℕ → ℕ → Result (List Metric)
get_metric_rollups db id resolution page page_size =
    page_of "get metric rollups"
      (map metric_of
        (Table.sort_by by_bucket_ts (Table.select (of_resolution id resolution) db.metric_rollups)))
      page page_size

unfoldable pub get_metrics : Db → Uuid → String → ℤ → ℤ → Result (List Metric)
unfolding get_metric_rollups
get_metrics db id resolution page page_size =
    if resolution == "" || resolution == "raw"
    then get_raw_metrics db id page page_size
    else get_metric_rollups db id resolution (clamp_page page) (clamp_page_size page_size)
