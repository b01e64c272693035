-- ===== src/Db/Logs/Batches.antt =====
-- BatchInsertLogs of server/internal/store/postgres/store.go: all rows of a batch, or none.
use mathlib.Core.List.{append_assoc, append-nil}
use jackrabbit.Base.{
  ℕ, suc, ◌+◌, ◌≡◌, refl, sym, ap, ◌⊎◌, inl, inr, true, false, List, [], ◌∷◌, ◌++◌, Memᴰ, All,
  length, arith, Bool-cases, ap₂,
}
use jackrabbit.Models.{Log}
use jackrabbit.Results.{ok, err, failed}
use jackrabbit.Db.State.{Db}
use jackrabbit.Db.Logs.{
  has_texts, references_met, is_storable, insert_log, insert_logs, settle, batch_insert_logs,
}

-- The rows of a batch: the entries, numbered in turn.
unfoldable pub numbered : ℕ → List Log → List Log
numbered n [] = []
numbered n (l ∷ ls) = record l { id = n } ∷ numbered (suc n) ls

abbrev pub with_batch : Db → List Log → Db
with_batch db ls = record db {
  logs = db.logs ++ numbered db.next_log_id ls;
  next_log_id = db.next_log_id + length ls;
}

batch_row :
    (db : Db) (l : Log) (ls : List Log) → with_batch (insert_log db l) ls ≡ with_batch db (l ∷ ls)
unfolding numbered
batch_row db l ls =
    ap₂ (λ rows next. record db { logs = rows; next_log_id = next })
      (append_assoc db.logs (record l { id = db.next_log_id } ∷ [])
        (numbered (suc db.next_log_id) ls))
      (omega arith)

empty_batch : (db : Db) → with_batch db [] ≡ db
unfolding numbered
empty_batch db =
    ap₂ (λ rows next. record db { logs = rows; next_log_id = next }) (append-nil db.logs)
      (omega arith)

abbrev NoBatch : Db → List Log → Type 0
NoBatch db ls =
    (bad : Log) × Memᴰ bad ls
    × (is_storable db bad ≡ false)
    × ((left : Db) × (insert_logs db ls ≡ (err (failed "insert log"), left)))

insert_outcome :
    (db : Db) (ls : List Log)
    → ((All (λ l. is_storable db l ≡ true) ls) × (insert_logs db ls ≡ (ok tt, with_batch db ls)))
      ⊎ NoBatch db ls
unfolding insert_logs
insert_outcome db [] = inl (tt, ap (λ d. (ok tt, d)) (sym (empty_batch db)))
insert_outcome db (l ∷ ls) = elim (Bool-cases (has_texts l.source l.level l.line)) [
  | inr g ↦ inr (l, Memᴰ.head refl, rw g refl, (db, rw g refl))
  | inl u ↦ elim (Bool-cases (references_met db l)) [
    | inr f ↦ inr (l, Memᴰ.head refl, rw (u, f) refl, (insert_log db l, rw (u, f) refl))
    | inl t ↦ elim (insert_outcome (insert_log db l) ls) [
      | inl (all, q) ↦
          inl ((rw (u, t) refl, all), rw (u, t, q) (ap (λ d. (ok tt, d)) (batch_row db l ls)))
      | inr (bad, m, b, (left, q)) ↦ inr (bad, Memᴰ.tail m, b, (left, rw (u, t) q))
    ]
  ]
]

-- A batch is stored behind the rows that were there, in its order and numbered in turn, if the texts
-- of every entry have no NUL character and it names a command and a runner that exist, or none.
-- Otherwise the batch fails and stores nothing; only the sequence of identifiers may have moved.
pub batch_insert_logs_lem :
    (db : Db) (ls : List Log)
    → let (result, db') = batch_insert_logs db ls in
      ((All (λ l. is_storable db l ≡ true) ls)
        × (result ≡ ok tt)
        × (db' ≡ record db {
          logs = db.logs ++ numbered db.next_log_id ls;
          next_log_id = db.next_log_id + length ls;
        }))
      ⊎ (((bad : Log) × Memᴰ bad ls × (is_storable db bad ≡ false))
          × (result ≡ err (failed "insert log"))
          × ((next : ℕ) × (db' ≡ record db { next_log_id = next })))
unfolding batch_insert_logs settle
batch_insert_logs_lem db ls = elim (insert_outcome db ls) [
  | inl (all, q) ↦ rw q (inl (all, refl, refl))
  | inr (bad, m, b, (left, q)) ↦ rw q (inr ((bad, m, b), refl, (left.next_log_id, refl)))
]
