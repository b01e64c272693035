-- ===== src/Server/Reaper.antt =====
-- server/internal/workers/reaper.go, over any store. Errors are only logged.
pub mod Effects
use jackrabbit.Base.{ℕ, ◌-◌, ◌*◌}
use jackrabbit.Models.{Time}
use jackrabbit.Server.Store.{Store}

-- runnerOrphanAge: 5 * time.Minute, in nanoseconds.
abbrev pub runner_orphan_age : Time
runner_orphan_age = 5 * 60 * 1_000_000_000

module _ {S : Type 0} (store : Store S) where
  unfoldable pub reap_expired_commands : Time → S → S
  reap_expired_commands now s = (store.fail_expired_commands s now).1

  -- Before the epoch there is no last_seen to compare with, so that the cutoff may stop at 0.
  unfoldable pub reap_orphaned_runners : Time → S → S
  reap_orphaned_runners now s = (store.mark_orphaned_runners s (now - runner_orphan_age)).1

  unfoldable pub reap_stuck_commands : S → S
  reap_stuck_commands s = (store.fail_stuck_commands s).1

  -- One run, which reads the clock twice.
  unfoldable pub run : Time → Time → S → S
  unfolding reap_expired_commands reap_orphaned_runners reap_stuck_commands
  run now now' s = reap_stuck_commands (reap_orphaned_runners now' (reap_expired_commands now s))
