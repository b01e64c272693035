-- ===== src/Server/Handlers/Runners/Batches.antt =====
-- BatchInsertLogs of server/internal/api/handlers/runners.go, on PostgreSQL, for the batches that a
-- runner posts one after another.
use mathlib.Core.List.{append_assoc, append-nil, map-append}
use jackrabbit.Base.{
  ◌&&◌, ℕ, suc, String, ℤ, nat_eq, leb_ℤ, ◌≡◌, ◌≢◌, refl, sym, ap, ◌∙◌, inl, inr, Bool, true, false,
  Option, none, some, List, [], ◌∷◌, ◌++◌, map, All, Bool-cases,
}
use jackrabbit.Models.{Time, Uuid, Log}
use jackrabbit.Results.{Result, Error, ok, err}
use jackrabbit.Table
use jackrabbit.Table.Ordered.{select-append, concat, All-mem}
use jackrabbit.Db.{Db}
use jackrabbit.Db.State.{command_exists, runner_exists, equals}
use jackrabbit.Db.Logs
use jackrabbit.Db.Logs.{of_command, is_storable, has_texts}
use jackrabbit.Db.Logs.Batches.{numbered, with_batch, batch_insert_logs_lem}
use jackrabbit.Db.Notify.{Engine}
use jackrabbit.Server.Store.{Store, postgres}
use jackrabbit.Server.Http.{Response, respond, empty}
use jackrabbit.Server.Handlers.Runners.{
  LogEntry, parse_optional, log_of, logs_of, stored, batch_insert_logs,
}

-- What a reader of the log sees of a line.
pub record Shown : Type 0 where
  pub source : String
  pub level : Option String
  pub line : String
  pub seq : ℤ
  pub ts : Time

abbrev pub shown : Log → Shown
shown l = record { source = l.source; level = l.level; line = l.line; seq = l.seq; ts = l.ts }

abbrev pub shown_entry : LogEntry → Shown
shown_entry l = record { source = l.source; level = l.level; line = l.line; seq = l.seq; ts = l.ts }

abbrev pub earlier : Shown → Shown → Bool
earlier l m = leb_ℤ l.seq m.seq

-- An entry whose texts have no NUL character, and whose command, where it names one, exists.
abbrev known : Db → Option (Option Uuid) → Bool
known db none = false
known db (some id) = command_exists db id

abbrev pub accepted : (String → Option Uuid) → Db → LogEntry → Bool
accepted parse_uuid db entry =
    has_texts entry.source entry.level entry.line
    && known db (parse_optional parse_uuid entry.command_id)

-- An entry of a command.
abbrev pub names : Uuid → Option (Option Uuid) → Bool
names id none = false
names id (some other) = equals other id

abbrev pub is_about : (String → Option Uuid) → Uuid → LogEntry → Bool
is_about parse_uuid id entry = names id (parse_optional parse_uuid entry.command_id)

-- The batches that one runner posts, in the order of their arrival, and the answers to them.
unfoldable pub posts : Engine → String → Db → List (List LogEntry) → List Response × Db
posts e slug db [] = ([], db)
posts e slug db (batch ∷ batches) =
    let (answer, db') = batch_insert_logs (postgres e) e.parse_uuid db slug (some batch) in
    let (answers, db'') = posts e slug db' batches in (answer ∷ answers, db'')

false-ne-true : false ≢ true
false-ne-true h = cc

err-ne-ok : {e : Error} → ◌≢◌ {A = Result (Unit {0})} (err e) (ok tt)
err-ne-ok h = cc

both_true : (a b : Bool) → (a && b) ≡ true → (a ≡ true) × (b ≡ true)
both_true true b h = (refl, h)
both_true false b h = absurd (false-ne-true h)

stored_ok :
    {S : Type 0} (store : Store S) (broken : String) (r : Result (Unit {0}) × S)
    → r.0 ≡ ok tt
    → stored store broken r ≡ (respond 204 empty, r.1)
unfolding stored
stored_ok store broken (ok u, s) h = refl
stored_ok store broken (err e, s) h = absurd (err-ne-ok h)

select-numbered :
    (id : Uuid) (n : ℕ) (rows : List Log)
    → map shown (Table.select (of_command id) (numbered n rows))
      ≡ map shown (Table.select (of_command id) rows)
unfolding Table.select numbered
select-numbered id n [] = refl
select-numbered id n (l ∷ rows) = elim (Bool-cases (of_command id l)) [
  | inl t ↦ rw t (ap (◌∷◌ (shown l)) (select-numbered id (suc n) rows))
  | inr f ↦ rw f (select-numbered id (suc n) rows)
]

module _ (e : Engine) (slug : String) (id : Uuid) where
  -- The rows of a batch that is accepted.
  abbrev Rows : Db → List LogEntry → Type 0
  Rows db entries =
      (rows : List Log) × (logs_of e.parse_uuid slug entries ≡ some rows)
      × All (λ l. is_storable db l ≡ true) rows
      × (map shown (Table.select (of_command id) rows)
          ≡ map shown_entry (Table.select (is_about e.parse_uuid id) entries))

  next-Rows :
      (db : Db) (entry : LogEntry) (entries : List LogEntry) (c : Option (Option Uuid))
      → runner_exists db (some slug) ≡ true
      → parse_optional e.parse_uuid entry.command_id ≡ c
      → has_texts entry.source entry.level entry.line ≡ true
      → known db c ≡ true
      → Rows db entries
      → Rows db (entry ∷ entries)
  unfolding logs_of Table.select
  next-Rows db entry entries none r q u k rest = absurd (false-ne-true k)
  next-Rows db entry entries (some c) r q u k (rows, parsed, met, same) = (
    log_of slug entry c ∷ rows,
    rw (logs_of, q, parsed) refl,
    (rw (u, k, r) refl, met),
    elim (Bool-cases (equals c id)) [
      | inl t ↦ rw (q, t) (ap (◌∷◌ (shown_entry entry)) same)
      | inr f ↦ rw (q, f) same
    ],
  )

  batch-Rows :
      (db : Db) (entries : List LogEntry)
      → runner_exists db (some slug) ≡ true
      → All (λ l. accepted e.parse_uuid db l ≡ true) entries
      → Rows db entries
  batch-Rows db [] r a = ([], unfold logs_of in refl, tt, unfold Table.select in refl)
  batch-Rows db (entry ∷ entries) r a =
      let (u, k) = both_true _ _ a.0 in
      next-Rows db entry entries _ r refl u k (batch-Rows db entries r a.1)

  settled :
      (db : Db) (batch : List LogEntry) (rows : List Log)
      → logs_of e.parse_uuid slug batch ≡ some rows
      → All (λ l. is_storable db l ≡ true) rows
      → batch_insert_logs (postgres e) e.parse_uuid db slug (some batch)
        ≡ (respond 204 empty, with_batch db rows)
  unfolding batch_insert_logs
  settled db batch rows parsed met = elim (batch_insert_logs_lem db rows) [
    | inl (_, done, state) ↦
        rw (batch_insert_logs, parsed)
          (stored_ok (postgres e) "failed to insert logs" (Logs.batch_insert_logs db rows) done
            ∙ ap (λ d. (respond 204 empty, d)) state)
    | inr ((bad, m, f), _, _) ↦
        absurd (false-ne-true (sym f ∙ All-mem (λ l. is_storable db l ≡ true) rows met m))
  ]

  -- A batch that is accepted.
  one_batch :
      (db : Db) (batch : List LogEntry)
      → runner_exists db (some slug) ≡ true
      → All (λ l. accepted e.parse_uuid db l ≡ true) batch
      → (rows : List Log) × (batch_insert_logs (postgres e) e.parse_uuid db slug (some batch)
          ≡ (respond 204 empty, with_batch db rows))
        × (map shown (Table.select (of_command id) (with_batch db rows).logs)
            ≡ map shown (Table.select (of_command id) db.logs)
              ++ map shown_entry (Table.select (is_about e.parse_uuid id) batch))
  one_batch db batch r a =
      let (rows, parsed, met, same) = batch-Rows db batch r a in
      (
        rows,
        settled db batch rows parsed met,
        ap (map shown) (select-append (of_command id) db.logs (numbered db.next_log_id rows))
            ∙ map-append shown (Table.select (of_command id) db.logs) _
            ∙ ap (λ l. map shown (Table.select (of_command id) db.logs) ++ l)
                (select-numbered id db.next_log_id rows ∙ same),
      )

  pub batches_posted :
      (db : Db) (batches : List (List LogEntry))
      → runner_exists db (some slug) ≡ true
      → All (All (λ l. accepted e.parse_uuid db l ≡ true)) batches
      → let (answers, db') = posts e slug db batches in
        All (λ r. r ≡ respond 204 empty) answers
        × (map shown (Table.select (of_command id) db'.logs)
            ≡ map shown (Table.select (of_command id) db.logs)
              ++ map shown_entry (Table.select (is_about e.parse_uuid id) (concat batches)))
  unfolding posts concat
  batches_posted db [] r a = (tt, unfold Table.select in sym (append-nil _))
  batches_posted db (batch ∷ batches) r a =
      let (rows, answered, same) = one_batch db batch r a.0 in
      let (good, later) = batches_posted (with_batch db rows) batches r a.1 in
      let about = Table.select (is_about e.parse_uuid id) in
      let old = map shown (Table.select (of_command id) db.logs) in
      let both : map shown_entry (about (batch ++ concat batches))
          ≡ map shown_entry (about batch) ++ map shown_entry (about (concat batches)) =
        ap (map shown_entry) (select-append (is_about e.parse_uuid id) batch (concat batches))
        ∙ map-append shown_entry (about batch) _ in
      rw answered (
        (refl, good),
        later
            ∙ ap (λ l. l ++ map shown_entry (about (concat batches))) same
            ∙ append_assoc old (map shown_entry (about batch)) _
            ∙ ap (λ l. old ++ l) (sym both),
      )
