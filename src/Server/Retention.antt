-- ===== src/Server/Retention.antt =====
-- server/internal/workers/retention.go, over any store. Days are of 24 hours, as in a server whose
-- time zone is UTC.
pub mod Kept
use jackrabbit.Base.{ℕ, zero, suc, ◌-◌, ◌*◌, ◌+◌, String, ℤ, Option, none, some, List, [], ◌∷◌}
use jackrabbit.Models.{Time, LogRetentionPolicy}
use jackrabbit.Results.{Result, ok, err}
use jackrabbit.Server.Store.{Store}

abbrev pub day : Time
day = 24 * 60 * 60 * 1_000_000_000

abbrev pub scope_id_of : LogRetentionPolicy → String
scope_id_of p = elim p.scope_id [ none ↦ "" | some id ↦ id ]

module _ {S : Type 0} (store : Store S) where
  -- `if policy.MaxAgeDays != nil && *policy.MaxAgeDays > 0`. The number is what was deleted.
  unfoldable pub apply_age : Time → S → LogRetentionPolicy → Option ℤ → Result ℕ × S
  apply_age now s p none = (ok 0, s)
  apply_age now s p (some (ℤ.negsuc n)) = (ok 0, s)
  apply_age now s p (some (ℤ.pos zero)) = (ok 0, s)
  apply_age now s p (some (ℤ.pos (suc n))) =
      store.delete_logs_by_age s p.scope (scope_id_of p) (now - suc n * day)

  unfoldable pub apply_size : S → LogRetentionPolicy → Option ℤ → Result ℕ × S
  apply_size s p none = (ok 0, s)
  apply_size s p (some (ℤ.negsuc n)) = (ok 0, s)
  apply_size s p (some (ℤ.pos zero)) = (ok 0, s)
  apply_size s p (some (ℤ.pos (suc n))) =
      store.delete_logs_by_size s p.scope (scope_id_of p) (ℤ.pos (suc n * 1024 * 1024))

  unfoldable pub add_deleted : ℕ → Result ℕ × S → Result ℕ × S
  add_deleted n (ok m, s) = (ok (n + m), s)
  add_deleted n (err e, s) = (err e, s)

  unfoldable pub after_age : LogRetentionPolicy → Result ℕ × S → Result ℕ × S
  unfolding apply_size add_deleted
  after_age p (err e, s) = (err e, s)
  after_age p (ok n, s) = add_deleted n (apply_size s p p.max_size_mb)

  -- The number of logs deleted, which applyPolicy only writes to its log, or its error.
  unfoldable pub apply_policy : Time → S → LogRetentionPolicy → Result ℕ × S
  unfolding apply_age after_age
  apply_policy now s p = after_age p (apply_age now s p p.max_age_days)

  -- An error of one policy is logged, and the next is applied. Each policy reads the clock again;
  -- `times` are the readings.
  unfoldable pub apply_policies : (ℕ → Time) → S → List LogRetentionPolicy → S
  apply_policies times s [] = s
  apply_policies times s (p ∷ ps) =
      apply_policies (λ i. times (suc i)) (apply_policy (times 0) s p).1 ps

  read_policies : (ℕ → Time) → Result (List LogRetentionPolicy) × S → S
  unfolding apply_policies
  read_policies times (err e, s) = s
  read_policies times (ok ps, s) = apply_policies times s ps

  unfoldable pub run : (ℕ → Time) → S → S
  unfolding read_policies
  run times s = read_policies times (store.get_log_retention_policies s)
