-- ===== src/Db/Commands/Queue.antt =====
-- The queue that ClaimNextCommand serves (server/internal/store/postgres/store.go): who gets which
-- command, and that nobody gets one twice.
use jackrabbit.Base.{
  ◌≡◌, ◌≢◌, ◌≤◌, refl, sym, ap, ap₂, ◌∙◌, String, nat_eq, string_eq, Option, none, some,
  Option-cases, inl, inr, ◌↔◌, List, Memᴰ, arith, nat_beq_iff,
}
use jackrabbit.Models.{Command, Uuid}
use jackrabbit.Results.{Error, Result, ok, err, not_found}
use jackrabbit.Table
use jackrabbit.Table.Keys.{Distinct-update}
use jackrabbit.Db.State.{Db, IsValid, has_id, id_of}
use jackrabbit.Db.Commands.{next_claimable, take_claim, claimed_by, claim_next_command, get_command}
use jackrabbit.Db.Commands.Lookup.{
  get_command-mem, get_command-id, get_command-update, get_command-update_other,
}
use jackrabbit.Db.Commands.Claim.{
  Claimable, claimable-Claimable, claim_next_command-ok, next_claimable-mem, next_claimable-oldest,
  next_claimable-none,
}

claimed_row :
    (db : Db) (slug : String) (c : Command)
    → get_command db c.id ≡ ok c
    → get_command
        (record db { commands = Table.update (has_id c.id) (claimed_by db slug) db.commands })
        c.id
      ≡ ok (claimed_by db slug c)
unfolding claimed_by
claimed_row db slug c h =
    get_command-update db (has_id c.id) (claimed_by db slug) (λ d. refl) c.id c h
    ∙ rw ((nat_beq_iff c.id c.id).1 refl) refl

pub other_row :
    (db : Db) (id other : Uuid) (f : Command → Command)
    → ((c : Command) → (f c).id ≡ c.id)
    → other ≢ id
    → get_command (record db { commands = Table.update (has_id id) f db.commands }) other
      ≡ get_command db other
other_row db id other f keeps ne =
    get_command-update_other db (has_id id) f keeps other
      (λ c h. ground (arith, get_command-id db other c h))

-- Where keys are distinct, a claim that succeeds returns a command that stood in the table, queued, for this runner by its
-- slug or by one of its tags, unlocked and before its deadline; it is the oldest such command; and
-- afterwards its row is the returned one: claimed, by this runner, at this time, and otherwise as it
-- was. Every other command is as it was.
pub claim_next_command_takes :
    (db : Db) (slug : String) (tags : List String) (c' : Command)
    → IsValid db
    → (claim_next_command db slug tags).0 ≡ ok c'
    → let db' = (claim_next_command db slug tags).1 in
      (c : Command) × (get_command db c'.id ≡ ok c)
      × Claimable db slug tags c
      × ((d : Command)
          → Memᴰ d db.commands
          → Claimable db slug tags d
          → c.created_at ≤ d.created_at)
      × (c'
          ≡ record c { status = "claimed"; assigned_runner = some slug; claimed_at = some db.now })
      × (get_command db' c'.id ≡ ok c')
      × ((other : Uuid) → other ≢ c'.id → get_command db' other ≡ get_command db other)
unfolding claimed_by
claim_next_command_takes db slug tags c' v h =
    let (c, chosen, same, next) = claim_next_command-ok db slug tags c' h in
    let (inside, passes) = next_claimable-mem db slug tags c chosen in
    let id_same : c'.id ≡ c.id = ap (λ x. x.id) same in
    let row : get_command db c.id ≡ ok c = get_command-mem db c v inside in
    (
      c,
      ap (get_command db) id_same ∙ row,
      claimable-Claimable db slug tags c passes,
      (λ d. next_claimable-oldest db slug tags c d chosen),
      same,
      ap₂ get_command next id_same ∙ claimed_row db slug c row ∙ ap ok (sym same),
      (λ other ne.
          ap (λ x. get_command x other) next
          ∙ other_row db c.id other (claimed_by db slug) (λ d. refl) (λ e. ne (e ∙ sym id_same))),
    )

take_claim-not_found :
    (db : Db) (slug : String) (o : Option Command)
    → (take_claim db slug o).0 ≡ err not_found
    → o ≡ none
unfolding take_claim
take_claim-not_found db slug none h = refl
take_claim-not_found db slug (some c) h = absurd (ground arith)

take_claim-err :
    (db : Db) (slug : String) (o : Option Command) (e : Error)
    → (take_claim db slug o).0 ≡ err e
    → (take_claim db slug o).1 ≡ db
unfolding take_claim
take_claim-err db slug none e h = refl
take_claim-err db slug (some c) e h = ground arith

none-Claimable :
    (db : Db) (slug : String) (tags : List String)
    → ((d : Command) → Memᴰ d db.commands → ¬ Claimable db slug tags d)
    → next_claimable db slug tags ≡ none
none-Claimable db slug tags h = elim (Option-cases (next_claimable db slug tags)) [
  | inl e ↦ e
  | inr (c, e) ↦
      let (inside, passes) = next_claimable-mem db slug tags c e in
      absurd (h c inside (claimable-Claimable db slug tags c passes))
]

-- A claim answers "not found" exactly when the table holds no command that the runner may be given;
-- and whatever error it returns, the database is as it was.
pub claim_next_command_refuses :
    (db : Db) (slug : String) (tags : List String)
    → let (result, db') = claim_next_command db slug tags in
      ((result ≡ err not_found) ↔ ((d : Command) → Memᴰ d db.commands → ¬ Claimable db slug tags d))
      × ((e : Error) → result ≡ err e → db' ≡ db)
unfolding claim_next_command
claim_next_command_refuses db slug tags = (
  (
    (λ h d m.
        next_claimable-none db slug tags d
          (take_claim-not_found db slug (next_claimable db slug tags) h) m),
    (λ h.
        ap (λ o. (take_claim db slug o).0) (none-Claimable db slug tags h)
        ∙ (unfold take_claim in refl)),
  ),
  take_claim-err db slug (next_claimable db slug tags),
)

-- A claim keeps the primary keys.
pub claim_next_command-IsValid :
    (db : Db) (slug : String) (tags : List String)
    → IsValid db
    → IsValid (claim_next_command db slug tags).1
claim_next_command-IsValid db slug tags v = outcome (claim_next_command db slug tags).0 refl
  where
    outcome :
        (r : Result Command)
        → (claim_next_command db slug tags).0 ≡ r
        → IsValid (claim_next_command db slug tags).1
    outcome (err e) h = rw ((claim_next_command_refuses db slug tags).1 e h) v
    outcome (ok c') h =
        let (c, _, _, next) = claim_next_command-ok db slug tags c' h in
        rw next (record {
          slugs_distinct = v.slugs_distinct;
          ids_distinct =
              Distinct-update id_of (has_id c.id) (claimed_by db slug) db.commands
                (λ d. unfold claimed_by in refl) v.ids_distinct;
        })
