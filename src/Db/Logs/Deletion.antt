-- ===== src/Db/Logs/Deletion.antt =====
-- DeleteLogsByAge and DeleteLogsBySize of server/internal/store/postgres/store.go.
use jackrabbit.Base.{
  ℕ, ◌-◌, min, ◌≤◌, String, string_eq, nat_eq, ltb, leb→le, ℤ, pos_part, ◌≡◌, refl, ap, ◌∙◌, ◌⊎◌,
  ◌↔◌, inl, inr, Bool, true, false, not, ◌&&◌, Option, Memᴰ, arith, Bool-cases,
}
use jackrabbit.Models.{Time, Uuid, Log}
use jackrabbit.Results.{Result, ok, err, Error}
use jackrabbit.Table
use jackrabbit.Table.Keys.{Distinct, mem-select, select-mem}
use jackrabbit.Table.Sorting.{sort_by-IsSorted}
use jackrabbit.Table.Removal.{affected-kept, other-kept, removed-le-kept, affected-all_goes}
use jackrabbit.Db.State.{Db}
use jackrabbit.Db.Logs.{
  delete_logs_by_age, delete_logs_by_size, in_scope, scope_target, surplus_ids, max_logs, excess,
  by_ts,
}

by_ts-total : (l m : Log) → by_ts l m ≡ false → by_ts m l ≡ true
by_ts-total l m h = ground arith

by_ts_trans : (l m n : Log) → by_ts l m ≡ true → by_ts m n ≡ true → by_ts l n ≡ true
by_ts_trans l m n p q = ground arith

abbrev pub log_id : Log → ℕ
log_id l = l.id

-- How many logs of a kind the table holds.
abbrev pub count : (Log → Bool) → Db → ℕ
count p db = Table.affected p db.logs

-- What a deletion by age has done: of the logs in a scope, the older ones are gone.
abbrev pub IsAgedOut : Db → (Log → Bool) → Time → Result ℕ → Db → Type 0
IsAgedOut db mine cutoff result db' =
    (result ≡ ok (count (λ l. mine l && ltb l.ts cutoff) db))
    × ((l : Log) → Memᴰ l db'.logs ↔ (Memᴰ l db.logs × ((mine l ≡ true) → cutoff ≤ l.ts)))

pub Result-cases {ℓ} :
    {A : Type ℓ} (r : Result A) → ((a : A) × (r ≡ ok a)) ⊎ ((e : Error) × (r ≡ err e))
Result-cases (ok a) = inl (a, refl)
Result-cases (err e) = inr (e, refl)

kept_young :
    (db : Db) (mine : Log → Bool) (cutoff : Time) (l : Log)
    → Memᴰ l (Table.select (λ l. not (mine l && ltb l.ts cutoff)) db.logs)
      ↔ (Memᴰ l db.logs × ((mine l ≡ true) → cutoff ≤ l.ts))
kept_young db mine cutoff l = (
  (λ m.
      let (n, t) = mem-select l (λ l. not (mine l && ltb l.ts cutoff)) db.logs m in
      (n, (λ u. young u t))),
  (λ (n, h). select-mem l (λ l. not (mine l && ltb l.ts cutoff)) db.logs n (old h)),
)
  where
    young : mine l ≡ true → not (mine l && ltb l.ts cutoff) ≡ true → cutoff ≤ l.ts
    young u t = ground arith

    old : ((mine l ≡ true) → cutoff ≤ l.ts) → not (mine l && ltb l.ts cutoff) ≡ true
    old h = elim (Bool-cases (mine l)) [ inl u ↦ ground (arith, u, h u) | inr f ↦ rw f refl ]

module _ (parse_uuid : String → Option Uuid) (db : Db) (scope scope_id : String) where
  aged_out :
      (cutoff : Time) (id : Uuid)
      → scope_target parse_uuid scope scope_id ≡ ok id
      → let (result, db') = delete_logs_by_age parse_uuid db scope scope_id cutoff in
        IsAgedOut db (in_scope id scope scope_id) cutoff result db'
  unfolding delete_logs_by_age
  aged_out cutoff id q =
      rw (delete_logs_by_age, q) (refl, kept_young db (in_scope id scope scope_id) cutoff)

  age_error :
      (cutoff : Time) (e : Error)
      → scope_target parse_uuid scope scope_id ≡ err e
      → delete_logs_by_age parse_uuid db scope scope_id cutoff ≡ (err e, db)
  unfolding delete_logs_by_age
  age_error cutoff e q = rw (delete_logs_by_age, q) refl

-- A deletion by age removes the logs of the scope that are older than the cutoff, leaves all
-- others, and answers how many it removed. A scope that is unknown, or that names a command by what
-- is no UUID, is an error, and nothing is removed.
pub delete_logs_by_age_lem :
    (parse_uuid : String → Option Uuid) (db : Db) (scope scope_id : String) (cutoff : Time)
    → let (result, db') = delete_logs_by_age parse_uuid db scope scope_id cutoff in
      ((id : Uuid) × (scope_target parse_uuid scope scope_id ≡ ok id)
        × IsAgedOut db (in_scope id scope scope_id) cutoff result db')
      ⊎ ((e : Error) × (scope_target parse_uuid scope scope_id ≡ err e)
          × (result ≡ err e)
          × (db' ≡ db))
delete_logs_by_age_lem parse_uuid db scope scope_id cutoff =
    elim (Result-cases (scope_target parse_uuid scope scope_id)) [
      | inl (id, q) ↦ inl (id, q, aged_out parse_uuid db scope scope_id cutoff id q)
      | inr (e, q) ↦
          let same = age_error parse_uuid db scope scope_id cutoff e q in
          inr (e, q, ap (λ p. p.0) same, ap (λ p. p.1) same)
    ]

-- What a deletion by size has done: of the logs in a scope only as many are left as may be, and
-- they are the latest.
abbrev pub IsTrimmed : Db → (Log → Bool) → ℕ → Result ℕ → Db → Type 0
IsTrimmed db mine room result db' =
    (result ≡ ok (count mine db - room))
    × (count mine db' ≡ min room (count mine db))
    × ((l : Log) → Memᴰ l db'.logs → Memᴰ l db.logs)
    × ((l : Log) → Memᴰ l db.logs → mine l ≡ false → Memᴰ l db'.logs)
    × ((l m : Log)
        → Memᴰ l db.logs
        → ¬ Memᴰ l db'.logs
        → Memᴰ m db'.logs
        → mine m ≡ true
        → l.ts ≤ m.ts)

excess-min : (n : ℕ) (z : ℤ) → min (excess n z) n ≡ n - pos_part z
excess-min n (ℤ.pos m) = omega arith
excess-min n (ℤ.negsuc m) = omega arith

excess-left : (n : ℕ) (z : ℤ) → n - excess n z ≡ min (pos_part z) n
excess-left n (ℤ.pos m) = omega arith
excess-left n (ℤ.negsuc m) = omega arith

module _ (parse_uuid : String → Option Uuid) (db : Db) (scope scope_id : String)
    (max_bytes : ℤ) where
  abbrev surplus : Uuid → ℕ
  surplus id = excess (count (in_scope id scope scope_id) db) (max_logs max_bytes)

  abbrev room : ℕ
  room = pos_part (max_logs max_bytes)

  trimmed :
      (id : Uuid)
      → Distinct log_id db.logs
      → scope_target parse_uuid scope scope_id ≡ ok id
      → let (result, db') = delete_logs_by_size parse_uuid db scope scope_id max_bytes in
        IsTrimmed db (in_scope id scope scope_id) room result db'
  unfolding delete_logs_by_size surplus_ids
  trimmed id d q =
      let mine = in_scope id scope scope_id in
      let k = surplus id in
      rw (delete_logs_by_size, q)
        (
          ap ok (
              affected-all_goes log_id by_ts mine k db.logs d
              ∙ excess-min (count mine db) (max_logs max_bytes)),
          affected-kept log_id by_ts mine k db.logs d
              ∙ excess-left (count mine db) (max_logs max_bytes),
          (λ l m. (mem-select l _ db.logs m).0),
          other-kept log_id by_ts mine k db.logs d,
          (λ l m n gone stays u.
              (leb→le l.ts m.ts (
                removed-le-kept log_id by_ts mine k db.logs
                  (sort_by-IsSorted by_ts by_ts-total by_ts_trans _) d l m n gone stays u))),
        )

  size_error :
      (e : Error)
      → scope_target parse_uuid scope scope_id ≡ err e
      → delete_logs_by_size parse_uuid db scope scope_id max_bytes ≡ (err e, db)
  unfolding delete_logs_by_size
  size_error e q = rw (delete_logs_by_size, q) refl

-- A deletion by size, where logs have distinct identifiers. Of the logs of the scope it leaves at
-- most one for each 100 bytes, the latest ones, or all if there are not more; it leaves the logs of
-- other scopes, and answers how many it removed. A scope that is unknown, or that names a command
-- by what is no UUID, is an error, and nothing is removed.
pub delete_logs_by_size_lem :
    (parse_uuid : String → Option Uuid) (db : Db) (scope scope_id : String) (max_bytes : ℤ)
    → Distinct log_id db.logs
    → let (result, db') = delete_logs_by_size parse_uuid db scope scope_id max_bytes in
      ((id : Uuid) × (scope_target parse_uuid scope scope_id ≡ ok id)
        × IsTrimmed db (in_scope id scope scope_id) (pos_part (max_logs max_bytes)) result db')
      ⊎ ((e : Error) × (scope_target parse_uuid scope scope_id ≡ err e)
          × (result ≡ err e)
          × (db' ≡ db))
delete_logs_by_size_lem parse_uuid db scope scope_id max_bytes d =
    elim (Result-cases (scope_target parse_uuid scope scope_id)) [
      | inl (id, q) ↦ inl (id, q, trimmed parse_uuid db scope scope_id max_bytes id d q)
      | inr (e, q) ↦
          let same = size_error parse_uuid db scope scope_id max_bytes e q in
          inr (e, q, ap (λ p. p.0) same, ap (λ p. p.1) same)
    ]
