-- ===== src/Db/Commands/Serving.antt =====
-- Successive claims by any runners (ClaimNextCommand of server/internal/store/postgres/store.go):
-- a command is handed out at most once.
use text.Mathlib.TextEquality.{eq_iff}
use jackrabbit.Base.{
  ◌≡◌, ◌≢◌, refl, sym, ap, ◌∙◌, String, nat_eq, string_eq, List, [], ◌∷◌, arith, All,
}
use jackrabbit.Models.{Command, Uuid, Time}
use jackrabbit.Results.{Result, ok, err}
use jackrabbit.Table.Keys.{Distinct}
use jackrabbit.Db.State.{Db, IsValid}
use jackrabbit.Db.Commands.{claim_next_command, get_command}
use jackrabbit.Db.Commands.Queue.{
  claim_next_command_takes, claim_next_command_refuses, claim_next_command-IsValid,
}

-- A claim, and what the world is like when it is made.
pub record Request : Type 0 where
  pub slug : String
  pub tags : List String
  pub at : Time
  pub locked : List Uuid

abbrev pub arriving : Db → Request → Db
arriving db r = record db { now = r.at; locked = r.locked }

abbrev pub note_served : Result Command → List Uuid → List Uuid
note_served (ok c) ids = c.id ∷ ids
note_served (err _) ids = ids

-- The identifiers that a sequence of claims hands out.
unfoldable pub served : Db → List Request → List Uuid
served db [] = []
served db (r ∷ rs) =
    let (result, db') = claim_next_command (arriving db r) r.slug r.tags in
    note_served result (served db' rs)

ok-injective : {c d : Command} → ◌≡◌ {A = Result Command} (ok c) (ok d) → c ≡ d
ok-injective h = cc

pub arriving-IsValid : (db : Db) (r : Request) → IsValid db → IsValid (arriving db r)
arriving-IsValid db r v = record {
  slugs_distinct = v.slugs_distinct;
  ids_distinct = v.ids_distinct;
}

get_command-arriving :
    (db : Db) (r : Request) (id : Uuid) → get_command (arriving db r) id ≡ get_command db id
unfolding get_command
get_command-arriving db r id = refl

-- A claim leaves alone a command that is not queued, and does not return it.
claim-passes_over :
    (db : Db) (slug : String) (tags : List String) (id : Uuid) (c c' : Command)
    → IsValid db
    → get_command db id ≡ ok c
    → c.status ≢ "queued"
    → (claim_next_command db slug tags).0 ≡ ok c'
    → (c'.id ≢ id) × (get_command (claim_next_command db slug tags).1 id ≡ ok c)
claim-passes_over db slug tags id c c' v row busy h =
    let (d, d_row, d_ready, _, _, _, others) = claim_next_command_takes db slug tags c' v h in
    let apart : c'.id ≢ id = λ e. busy (
      ap (λ x. x.status) (ok-injective (sym row ∙ ap (get_command db) (sym e) ∙ d_row))
      ∙ d_ready.is_queued) in
    (apart, others id (λ e. apart (sym e)) ∙ row)

claimed-ne-queued : ◌≢◌ {A = String} "claimed" "queued"
claimed-ne-queued = ground (arith, eq_iff "claimed" "queued")

module _ (id : Uuid) (c : Command) (busy : c.status ≢ "queued") where
  held :
      (db : Db) (rs : List Request)
      → IsValid db
      → get_command db id ≡ ok c
      → All (λ i. i ≢ id) (served db rs)
  unfolding served
  held db [] v row = tt
  held db (r ∷ rs) v row = outcome (claim_next_command db₁ r.slug r.tags).0 refl (
      held (claim_next_command db₁ r.slug r.tags).1 rs
        (claim_next_command-IsValid db₁ r.slug r.tags (arriving-IsValid db r v)))
    where
      db₁ : Db
      db₁ = arriving db r

      outcome :
          (result : Result Command)
          → (claim_next_command db₁ r.slug r.tags).0 ≡ result
          → (get_command (claim_next_command db₁ r.slug r.tags).1 id ≡ ok c
              → All (λ i. i ≢ id) (served (claim_next_command db₁ r.slug r.tags).1 rs))
          → All
              (λ i. i ≢ id)
              (note_served result (served (claim_next_command db₁ r.slug r.tags).1 rs))
      outcome (ok c') h rest =
          let (apart, kept) =
            claim-passes_over db₁ r.slug r.tags id c c' (arriving-IsValid db r v)
              (get_command-arriving db r id ∙ row) busy h in
          (apart, rest kept)
      outcome (err e) h rest = rest (
          ap (λ x. get_command x id) ((claim_next_command_refuses db₁ r.slug r.tags).1 e h)
          ∙ (get_command-arriving db r id ∙ row))

-- In a table with distinct keys, whatever claims arrive, from any runners, at any times and beside
-- whatever locks, no command is handed out twice.
pub served-Distinct :
    (db : Db) (rs : List Request) → IsValid db → Distinct (λ (i : Uuid). i) (served db rs)
unfolding served
served-Distinct db [] v = tt
served-Distinct db (r ∷ rs) v =
    outcome (claim_next_command db₁ r.slug r.tags).0 refl
      (served-Distinct (claim_next_command db₁ r.slug r.tags).1 rs after)
  where
    db₁ : Db
    db₁ = arriving db r

    after : IsValid (claim_next_command db₁ r.slug r.tags).1
    after = claim_next_command-IsValid db₁ r.slug r.tags (arriving-IsValid db r v)

    outcome :
        (result : Result Command)
        → (claim_next_command db₁ r.slug r.tags).0 ≡ result
        → Distinct (λ (i : Uuid). i) (served (claim_next_command db₁ r.slug r.tags).1 rs)
        → Distinct
            (λ (i : Uuid). i)
            (note_served result (served (claim_next_command db₁ r.slug r.tags).1 rs))
    outcome (err e) h rest = rest
    outcome (ok c') h rest =
        let (_, _, _, _, same, row, _) =
          claim_next_command_takes db₁ r.slug r.tags c' (arriving-IsValid db r v) h in
        (
          held c'.id c' (λ e. claimed-ne-queued (sym (ap (λ x. x.status) same) ∙ e))
              (claim_next_command db₁ r.slug r.tags).1 rs after row,
          rest,
        )
