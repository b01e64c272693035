-- ===== src/Server/Retention/Kept/Runs.antt =====
-- The policies of a run of the retention worker (server/internal/workers/retention.go), one after the
-- other, on PostgreSQL.
use jackrabbit.Base.{
  ℕ, zero, suc, ◌-◌, ◌*◌, ◌≤◌, String, string_eq, nat_eq, ℤ, ◌≡◌, refl, sym, ap, ◌∙◌, subst, Option,
  none, some, List, [], ◌∷◌, Memᴰ, some-injective, none-ne-some, get_elem?,
}
use jackrabbit.Models.{Time, Uuid, Log, LogRetentionPolicy}
use jackrabbit.Results.{Result, ok, err}
use jackrabbit.Table.Keys.{Distinct}
use jackrabbit.Db.State.{Db}
use jackrabbit.Db.Logs.Deletion.{log_id}
use jackrabbit.Db.Policies.{get_log_retention_policies}
use jackrabbit.Db.Notify.{Engine}
use jackrabbit.Server.Store.{postgres}
use jackrabbit.Server.Retention.{
  day, apply_age, apply_size, add_deleted, after_age, apply_policy, apply_policies, run,
  read_policies,
}
use jackrabbit.Server.Retention.Kept.{
  Governs, OnlyLoses, OnlyLoses-refl, OnlyLoses-trans, cutoff_of, Obeys, add_deleted-state, by_age,
  by_size,
}

module _ (e : Engine) (p : LogRetentionPolicy) where
  -- The size of a policy, after its age.
  size_applied :
      (db : Db) (o : Option ℤ)
      → Distinct log_id db.logs
      → OnlyLoses (Governs e.parse_uuid p) db (apply_size (postgres e) db p o).1
  unfolding apply_size
  size_applied db none d = OnlyLoses-refl _ db d
  size_applied db (some (ℤ.negsuc n)) d = OnlyLoses-refl _ db d
  size_applied db (some (ℤ.pos zero)) d = OnlyLoses-refl _ db d
  size_applied db (some (ℤ.pos (suc n))) d = by_size e db p d (ℤ.pos (suc n * 1024 * 1024))

  rest_applied :
      (r : Result ℕ × Db)
      → Distinct log_id r.1.logs
      → OnlyLoses (Governs e.parse_uuid p) r.1 (after_age (postgres e) p r).1
  unfolding after_age add_deleted
  rest_applied (err er, db) d = OnlyLoses-refl _ db d
  rest_applied (ok n, db) d =
      subst (λ x. OnlyLoses (Governs e.parse_uuid p) db x)
        (add_deleted-state e n (apply_size (postgres e) db p p.max_size_mb))
        (size_applied db p.max_size_mb d)

  age_applied :
      (db : Db) (now : Time) (o : Option ℤ)
      → Distinct log_id db.logs
      → OnlyLoses (Governs e.parse_uuid p) db (apply_age (postgres e) now db p o).1
        × ((l : Log) (cutoff : Time)
            → Memᴰ l (apply_age (postgres e) now db p o).1.logs
            → cutoff_of now o ≡ some cutoff
            → Governs e.parse_uuid p l
            → cutoff ≤ l.ts)
  unfolding apply_age
  age_applied db now none d = (OnlyLoses-refl _ db d, (λ l c m h. absurd (none-ne-some h)))
  age_applied db now (some (ℤ.negsuc n)) d =
      (OnlyLoses-refl _ db d, (λ l c m h. absurd (none-ne-some h)))
  age_applied db now (some (ℤ.pos zero)) d =
      (OnlyLoses-refl _ db d, (λ l c m h. absurd (none-ne-some h)))
  age_applied db now (some (ℤ.pos (suc n))) d =
      let (loses, young) = by_age e db p d (now - suc n * day) in
      (loses, (λ l c m h mine. subst (λ t. t ≤ l.ts) (some-injective h) (young l m mine)))

  policy_applied :
      (db : Db) (now : Time)
      → Distinct log_id db.logs
      → OnlyLoses (Governs e.parse_uuid p) db (apply_policy (postgres e) now db p).1
        × Obeys e.parse_uuid now p (apply_policy (postgres e) now db p).1
  unfolding apply_policy
  policy_applied db now d =
      let (first, young) = age_applied db now p.max_age_days d in
      let later =
        rest_applied (apply_age (postgres e) now db p p.max_age_days) first.ids_distinct in
      (
        OnlyLoses-trans (λ l k. k) (λ l k. k) first later,
        (λ l c m h mine. young l c (later.kept_old l m) h mine),
      )

-- Some policy is about a log.
abbrev pub Governed : (String → Option Uuid) → List LogRetentionPolicy → Log → Type 0
Governed parse_uuid ps l = (p : LogRetentionPolicy) × Memᴰ p ps × Governs parse_uuid p l

module _ (e : Engine) where
  policies_applied :
      (times : ℕ → Time) (ps : List LogRetentionPolicy) (db : Db)
      → Distinct log_id db.logs
      → OnlyLoses (Governed e.parse_uuid ps) db (apply_policies (postgres e) times db ps)
        × ((i : ℕ) (p : LogRetentionPolicy)
            → get_elem? ps i ≡ some p
            → Obeys e.parse_uuid (times i) p (apply_policies (postgres e) times db ps))
  unfolding apply_policies
  policies_applied times [] db d = (OnlyLoses-refl _ db d, (λ i p h. absurd (none-ne-some h)))
  policies_applied times (q ∷ ps) db d =
      let (first, obeyed) = policy_applied e q db (times 0) d in
      let (later, others) =
        policies_applied (λ i. times (suc i)) ps (apply_policy (postgres e) (times 0) db q).1
          first.ids_distinct in
      (
        OnlyLoses-trans (λ l k. (q, Memᴰ.head refl, k)) (λ l (p, m, k). (p, Memᴰ.tail m, k)) first
            later,
        each obeyed later others,
      )
    where
      each :
          Obeys e.parse_uuid (times 0) q (apply_policy (postgres e) (times 0) db q).1
          → OnlyLoses (Governed e.parse_uuid ps) (apply_policy (postgres e) (times 0) db q).1 (
              apply_policies
                (postgres e)
                (λ i. times (suc i))
                (apply_policy (postgres e) (times 0) db q).1
                ps)
          → ((i : ℕ) (p : LogRetentionPolicy)
              → get_elem? ps i ≡ some p
              → Obeys e.parse_uuid (times (suc i)) p (
                  apply_policies
                    (postgres e)
                    (λ i. times (suc i))
                    (apply_policy (postgres e) (times 0) db q).1
                    ps))
          → (i : ℕ) (p : LogRetentionPolicy) → get_elem? (q ∷ ps) i ≡ some p
          → Obeys e.parse_uuid (times i) p (
              apply_policies
                (postgres e)
                (λ i. times (suc i))
                (apply_policy (postgres e) (times 0) db q).1
                ps)
      each obeyed later others zero p h l c m age mine =
          let same = some-injective h in
          obeyed l c (later.kept_old l m)
            (ap (λ (r : LogRetentionPolicy). cutoff_of (times 0) r.max_age_days) same ∙ age)
            (subst (λ r. Governs e.parse_uuid r l) (sym same) mine)
      each obeyed later others (suc i) p h l c m age mine = others i p h l c m age mine

-- A run over logs with distinct identifiers only removes logs, and only those that some policy is
-- about; and afterwards no log that a policy is about is older than the policy's age allows, as its
-- reading of the clock has it.
pub run-OnlyLoses :
    (e : Engine) (times : ℕ → Time) (db : Db)
    → Distinct log_id db.logs
    → let ps = get_log_retention_policies e.by_scope db in
      OnlyLoses (Governed e.parse_uuid ps) db (run (postgres e) times db)
      × ((i : ℕ) (p : LogRetentionPolicy)
          → get_elem? ps i ≡ some p
          → Obeys e.parse_uuid (times i) p (run (postgres e) times db))
unfolding run read_policies
run-OnlyLoses e times db d =
    policies_applied e times (get_log_retention_policies e.by_scope db) db d
