-- ===== src/Db/Commands/Counting.antt =====
-- ClaimNextCommand of server/internal/store/postgres/store.go beside IncrementRunnerActiveCount.
use jackrabbit.Base.{
  ◌⊎◌, true, false, fits_int4, String, ℤ, nat_eq, ◌==◌, ◌≡◌, refl, ◌+ℤ◌, Bool-cases, inl, inr,
  Option, none, some, List,
}
use jackrabbit.Models.{Uuid, Runner, Command}
use jackrabbit.Results.{ok, err, not_found}
use jackrabbit.Table
use jackrabbit.Table.Rows.{affected-update_same}
use jackrabbit.Db.State.{Db, IsValid, has_slug}
use jackrabbit.Db.Runners.{get_runner, increment_runner_active_count, overflows}
use jackrabbit.Db.Runners.Presence.{increment_runner_active_count_lem}
use jackrabbit.Db.Commands.{
  get_command, claim_next_command, take_claim, claimable, next_claimable, claimed_by,
}

module _ (db : Db) (rs : List Runner)
    (same : (slug : String)
      → Table.affected (has_slug slug) rs ≡ Table.affected (has_slug slug) db.runners) where
  take_other :
      (slug : String) (o : Option Command)
      → (take_claim (record db { runners = rs }) slug o).0 ≡ (take_claim db slug o).0
  unfolding take_claim claimed_by
  take_other slug none = refl
  take_other slug (some c) = elim (Bool-cases (Table.affected (has_slug slug) db.runners == 0)) [
    | inl t ↦ rw (same slug, t) refl
    | inr f ↦ rw (same slug, f) refl
  ]

  claim_other :
      (slug : String) (tags : List String)
      → (claim_next_command (record db { runners = rs }) slug tags).0
        ≡ (claim_next_command db slug tags).0
  unfolding claim_next_command claimable
  claim_other slug tags = take_other slug (next_claimable db slug tags)

-- The count of active commands plays no part in a claim.
pub claim_next_command-increment_runner_active_count :
    (db : Db) (counted : String) (delta : ℤ) (slug : String) (tags : List String)
    → (claim_next_command (increment_runner_active_count db counted delta).1 slug tags).0
      ≡ (claim_next_command db slug tags).0
unfolding increment_runner_active_count
claim_next_command-increment_runner_active_count db counted delta slug tags =
    elim (Bool-cases (Table.affected (overflows counted delta) db.runners == 0)) [
      | inl t ↦ rw t (
          claim_other db _
            (λ s.
              affected-update_same (has_slug s) (has_slug counted)
                (λ r. record r { active_count = r.active_count +ℤ delta; updated_at = db.now })
                db.runners (λ r h. refl))
            slug tags)
      | inr f ↦ rw f refl
    ]

pub get_command-increment_runner_active_count :
    (db : Db) (slug : String) (delta : ℤ) (id : Uuid)
    → get_command (increment_runner_active_count db slug delta).1 id ≡ get_command db id
unfolding increment_runner_active_count get_command
get_command-increment_runner_active_count db slug delta id =
    elim (Bool-cases (Table.affected (overflows slug delta) db.runners == 0)) [
      | inl t ↦ rw t refl
      | inr f ↦ rw f refl
    ]

-- What is left of a database when one is added to the count of active commands of a slug: its runner
-- has one more, if that fits a column of type INT; otherwise, and where there is no such runner,
-- nothing changes. No command changes.
abbrev pub IsCounted : Db → String → Db → Type 0
IsCounted db slug db' =
    ((r : Runner)
      → get_runner db slug ≡ ok r
      → ((fits_int4 (r.active_count +ℤ ℤ.pos 1) ≡ true)
          × (get_runner db' slug
              ≡ ok (record r { active_count = r.active_count +ℤ ℤ.pos 1; updated_at = db.now })))
        ⊎ ((fits_int4 (r.active_count +ℤ ℤ.pos 1) ≡ false) × (db' ≡ db)))
    × (get_runner db slug ≡ err not_found → db' ≡ db)
    × ((id : Uuid) → get_command db' id ≡ get_command db id)

pub increment-IsCounted :
    (db : Db) (slug : String)
    → IsValid db
    → IsCounted db slug (increment_runner_active_count db slug (ℤ.pos 1)).1
increment-IsCounted db slug v =
    let (known, unknown) = increment_runner_active_count_lem db slug (ℤ.pos 1) v in
    (
      (λ r h. elim (known r h) [
        | inl (fits, _, row) ↦ inl (fits, row)
        | inr (full, _, same) ↦ inr (full, same)
      ]),
      (λ h. (unknown h).1),
      get_command-increment_runner_active_count db slug (ℤ.pos 1),
    )
