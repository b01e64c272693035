-- ===== src/Server/Rollup.antt =====
-- server/internal/workers/rollup.go, over any store. Errors are only logged.
pub mod Refused
use jackrabbit.Base.{ℕ, ◌-◌, ◌*◌}
use jackrabbit.Models.{Time}
use jackrabbit.Server.Store.{Store}

-- time.Minute, in nanoseconds.
abbrev pub minute : Time
minute = 60 * 1_000_000_000

module _ {S : Type 0} (store : Store S) where
  unfoldable pub rollup_1m : Time → Time → S → S
  rollup_1m start end s = (store.rollup_metrics s "1m" start end).1

  unfoldable pub rollup_5m : Time → Time → S → S
  rollup_5m start end s = (store.rollup_metrics s "5m" start end).1

  -- Before the epoch there are no samples, so that the times may stop at 0.
  unfoldable pub run : Time → S → S
  unfolding rollup_1m rollup_5m
  run now s =
      rollup_5m (now - 11 * minute) (now - 6 * minute)
        (rollup_1m (now - 3 * minute) (now - 2 * minute) s)
