-- ===== src/Server/Retention/Kept.antt =====
-- What a run of the retention worker (server/internal/workers/retention.go) leaves of the logs, on
-- PostgreSQL.
pub mod Runs
use jackrabbit.Base.{
  ℕ, zero, suc, ◌-◌, ◌*◌, ◌≤◌, String, string_eq, nat_eq, ℤ, ◌≡◌, ◌≢◌, refl, sym, ap, ◌∙◌, subst,
  Bool, true, false, Option, none, some, List, [], ◌∷◌, Memᴰ, All, Bool-cases, inl, inr, arith,
  some-injective, none-ne-some, get_elem?,
}
use jackrabbit.Models.{Time, Uuid, Log, LogRetentionPolicy}
use jackrabbit.Results.{Result, ok, err, Error}
use jackrabbit.Table
use jackrabbit.Table.Keys.{Distinct}
use jackrabbit.Table.Rows.{All-select}
use jackrabbit.Db.State.{Db}
use jackrabbit.Db.Logs.{in_scope, scope_target, delete_logs_by_age, delete_logs_by_size}
use jackrabbit.Db.Logs.Deletion.{
  Result-cases, log_id, delete_logs_by_age_lem, delete_logs_by_size_lem,
}
use jackrabbit.Db.Policies.{get_log_retention_policies}
use jackrabbit.Db.Notify.{Engine}
use jackrabbit.Server.Store.{postgres}
use jackrabbit.Server.Retention.{
  day, scope_id_of, apply_age, apply_size, add_deleted, after_age, apply_policy, apply_policies,
  run, read_policies,
}

Distinct-select :
    (p : Log → Bool) (xs : List Log) → Distinct log_id xs → Distinct log_id (Table.select p xs)
unfolding Table.select
Distinct-select p [] d = d
Distinct-select p (x ∷ xs) d = elim (Bool-cases (p x)) [
  | inl t ↦ rw t (All-select _ p xs d.0, Distinct-select p xs d.1)
  | inr f ↦ rw f (Distinct-select p xs d.1)
]

-- A log that a policy is about.
abbrev pub Governs : (String → Option Uuid) → LogRetentionPolicy → Log → Type 0
Governs parse_uuid p l =
    (id : Uuid) × (scope_target parse_uuid p.scope (scope_id_of p) ≡ ok id)
    × (in_scope id p.scope (scope_id_of p) l ≡ true)

-- Logs are only removed, and only those of a kind.
pub record OnlyLoses (kind : Log → Type 0) (db db' : Db) : Type 0 where
  pub kept_old : (l : Log) → Memᴰ l db'.logs → Memᴰ l db.logs
  pub spared : (l : Log) → Memᴰ l db.logs → ¬ kind l → Memᴰ l db'.logs
  pub ids_distinct : Distinct log_id db'.logs

pub OnlyLoses-refl :
    (kind : Log → Type 0) (db : Db) → Distinct log_id db.logs → OnlyLoses kind db db
OnlyLoses-refl kind db d = record { kept_old = λ l m. m; spared = λ l m h. m; ids_distinct = d }

pub OnlyLoses-trans :
    {kind kind' more : Log → Type 0} {db db' db'' : Db}
    → ((l : Log) → kind l → more l)
    → ((l : Log) → kind' l → more l)
    → OnlyLoses kind db db'
    → OnlyLoses kind' db' db''
    → OnlyLoses more db db''
OnlyLoses-trans f g a b = record {
  kept_old = λ l m. a.kept_old l (b.kept_old l m);
  spared = λ l m h. b.spared l (a.spared l m (λ k. h (f l k))) (λ k. h (g l k));
  ids_distinct = b.ids_distinct;
}

-- The cutoff of a policy's age at a reading of the clock, where it has one.
abbrev pub cutoff_of : Time → Option ℤ → Option Time
cutoff_of now none = none
cutoff_of now (some (ℤ.negsuc n)) = none
cutoff_of now (some (ℤ.pos zero)) = none
cutoff_of now (some (ℤ.pos (suc n))) = some (now - suc n * day)

-- No log of a policy is older than its age allows.
abbrev pub Obeys : (String → Option Uuid) → Time → LogRetentionPolicy → Db → Type 0
Obeys parse_uuid now p db =
    (l : Log) (cutoff : Time)
    → Memᴰ l db.logs
    → cutoff_of now p.max_age_days ≡ some cutoff
    → Governs parse_uuid p l
    → cutoff ≤ l.ts

ok-injective : {a b : Uuid} → ◌≡◌ {A = Result Uuid} (ok a) (ok b) → a ≡ b
ok-injective h = cc

ok-ne-err : {a : Uuid} {e : Error} → ◌≢◌ {A = Result Uuid} (ok a) (err e)
ok-ne-err h = cc

pub add_deleted-state :
    (e : Engine) (n : ℕ) (r : Result ℕ × Db) → r.1 ≡ (add_deleted (postgres e) n r).1
unfolding add_deleted
add_deleted-state e n (ok m, db) = refl
add_deleted-state e n (err er, db) = refl

module _ (e : Engine) (db : Db) (p : LogRetentionPolicy) (d : Distinct log_id db.logs) where
  abbrev Mine : Log → Type 0
  Mine = Governs e.parse_uuid p

  age-Distinct :
      (cutoff : Time)
      → Distinct log_id (delete_logs_by_age e.parse_uuid db p.scope (scope_id_of p) cutoff).1.logs
  unfolding delete_logs_by_age
  age-Distinct cutoff = elim (Result-cases (scope_target e.parse_uuid p.scope (scope_id_of p))) [
    | inl (id, q) ↦ rw (delete_logs_by_age, q) (Distinct-select _ db.logs d)
    | inr (er, q) ↦ rw (delete_logs_by_age, q) d
  ]

  size-Distinct :
      (max_bytes : ℤ)
      → Distinct log_id
          (delete_logs_by_size e.parse_uuid db p.scope (scope_id_of p) max_bytes).1.logs
  unfolding delete_logs_by_size
  size-Distinct max_bytes =
      elim (Result-cases (scope_target e.parse_uuid p.scope (scope_id_of p))) [
        | inl (id, q) ↦ rw (delete_logs_by_size, q) (Distinct-select _ db.logs d)
        | inr (er, q) ↦ rw (delete_logs_by_size, q) d
      ]

  -- The identifier that a policy's scope parses.
  one_target :
      (id : Uuid) (l : Log)
      → scope_target e.parse_uuid p.scope (scope_id_of p) ≡ ok id
      → Mine l
      → in_scope id p.scope (scope_id_of p) l ≡ true
  one_target id l q (other, q', u) =
      subst (λ i. in_scope i p.scope (scope_id_of p) l ≡ true) (ok-injective (sym q' ∙ q)) u

  pub by_age :
      (cutoff : Time)
      → let db' = (delete_logs_by_age e.parse_uuid db p.scope (scope_id_of p) cutoff).1 in
        OnlyLoses Mine db db' × ((l : Log) → Memᴰ l db'.logs → Mine l → cutoff ≤ l.ts)
  by_age cutoff = elim (delete_logs_by_age_lem e.parse_uuid db p.scope (scope_id_of p) cutoff) [
    | inl (id, q, (counted, members)) ↦ (
      record {
        kept_old = λ l m. ((members l).0 m).0;
        spared = λ l m h. (members l).1 (m, λ u. absurd (h (id, q, u)));
        ids_distinct = age-Distinct cutoff;
      },
      (λ l m mine. ((members l).0 m).1 (one_target id l q mine)),
    )
    | inr (er, q, _, same) ↦ (
      subst (OnlyLoses Mine db) (sym same) (OnlyLoses-refl Mine db d),
      (λ l m (id, q', u). absurd (ok-ne-err (sym q' ∙ q))),
    )
  ]

  pub by_size :
      (max_bytes : ℤ)
      → OnlyLoses Mine db (delete_logs_by_size e.parse_uuid db p.scope (scope_id_of p) max_bytes).1
  by_size max_bytes =
      elim (delete_logs_by_size_lem e.parse_uuid db p.scope (scope_id_of p) max_bytes d) [
        | inl (id, q, (_, _, old, others, _)) ↦ record {
          kept_old = old;
          spared = λ l m h. elim (Bool-cases (in_scope id p.scope (scope_id_of p) l)) [
            | inl t ↦ absurd (h (id, q, t))
            | inr f ↦ others l m f
          ];
          ids_distinct = size-Distinct max_bytes;
        }
        | inr (er, q, _, same) ↦ subst (OnlyLoses Mine db) (sym same) (OnlyLoses-refl Mine db d)
      ]
