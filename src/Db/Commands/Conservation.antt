-- ===== src/Db/Commands/Conservation.antt =====
-- What becomes of the queued commands of server/internal/store/postgres/store.go under claims: the
-- queue as a collection that forgets the order of its rows.
use mathlib.Core.List.{Perm}
use mathlib.Core.List.Perm
use text.Mathlib.TextEquality.{eq_iff}
use jackrabbit.Base.{
  String, string_eq, nat_eq, nat_beq_iff, ◌==◌, ◌≡◌, ◌≢◌, refl, sym, ap, subst, ◌∙◌, Bool, true,
  false, List, [], ◌∷◌, ◌++◌, map, Memᴰ, All, All-mem, Bool-cases, inl, inr,
}
use jackrabbit.Models.{Uuid, Command}
use jackrabbit.Results.{Result, ok, err}
use jackrabbit.Table
use jackrabbit.Table.Keys.{Distinct}
use jackrabbit.Db.State.{Db, IsValid, has_id, id_of}
use jackrabbit.Db.Commands.{claim_next_command, claimed_by}
use jackrabbit.Db.Commands.Claim.{claim_next_command-ok, next_claimable-mem, claimable-Claimable}
use jackrabbit.Db.Commands.Queue.{claim_next_command_refuses, claim_next_command-IsValid}
use jackrabbit.Db.Commands.Serving.{Request, arriving, note_served, served, arriving-IsValid}

abbrev pub is_queued : Command → Bool
is_queued c = c.status == "queued"

-- The identifiers of the queue.
abbrev pub queued_ids : Db → List Uuid
queued_ids db = map id_of (Table.select (λ c. c.status == "queued") db.commands)

-- The database after the claims of `served`.
unfoldable pub after_claims : Db → List Request → Db
after_claims db [] = db
after_claims db (r ∷ rs) = after_claims (claim_next_command (arriving db r) r.slug r.tags).1 rs

update_absent :
    (i : Uuid) (f : Command → Command) (xs : List Command)
    → All (λ y. id_of y ≢ i) xs
    → Table.update (has_id i) f xs ≡ xs
unfolding Table.update
update_absent i f [] a = refl
update_absent i f (x ∷ xs) a = elim (Bool-cases (has_id i x)) [
  | inl t ↦ absurd (a.0 ((nat_beq_iff x.id i).0 t))
  | inr n ↦ rw n (ap (◌∷◌ x) (update_absent i f xs a.1))
]

-- An update that takes one row out of a kind takes its identifier out of the kind's.
module _ (f : Command → Command) (leaves : (x : Command) → is_queued (f x) ≡ false) where
  taken_out_first :
      (x : Command) (xs : List Command)
      → All (λ y. id_of y ≢ id_of x) xs
      → is_queued x ≡ true
      → Perm
          (map id_of (Table.select is_queued (x ∷ xs)))
          (x.id ∷ map id_of (Table.select is_queued (Table.update (has_id x.id) f (x ∷ xs))))
  unfolding Table.select Table.update
  taken_out_first x xs a q =
      rw (q, (nat_beq_iff x.id x.id).1 refl, leaves x, update_absent x.id f xs a) (Perm.refl _)

  taken_out :
      (c : Command) (xs : List Command)
      → Distinct id_of xs
      → Memᴰ c xs
      → is_queued c ≡ true
      → Perm
          (map id_of (Table.select is_queued xs))
          (c.id ∷ map id_of (Table.select is_queued (Table.update (has_id c.id) f xs)))
  unfolding Table.select Table.update
  taken_out c [] d m q = elim m [ ]
  taken_out c (x ∷ xs) d (Memᴰ.head e) q =
      subst
        (λ y.
          Perm (map id_of (Table.select is_queued (x ∷ xs)))
            (y.id ∷ map id_of (Table.select is_queued (Table.update (has_id y.id) f (x ∷ xs)))))
        (sym e) (taken_out_first x xs d.0 (ap is_queued (sym e) ∙ q))
  taken_out c (x ∷ xs) d (Memᴰ.tail m) q = elim (Bool-cases (has_id c.id x)) [
    | inl t ↦
        absurd (All-mem (λ y. id_of y ≢ id_of x) xs c d.0 m (sym ((nat_beq_iff x.id c.id).0 t)))
    | inr n ↦ elim (Bool-cases (is_queued x)) [
      | inl u ↦
          rw (n, u) (Perm.trans (Perm.cons x.id (taken_out c xs d.1 m q)) (Perm.swap c.id x.id _))
      | inr u ↦ rw (n, u) (taken_out c xs d.1 m q)
    ]
  ]

leaves_queue : (db : Db) (slug : String) (x : Command) → is_queued (claimed_by db slug x) ≡ false
unfolding claimed_by
leaves_queue db slug x = refl

claimed_by-id : (db : Db) (slug : String) (x : Command) → (claimed_by db slug x).id ≡ x.id
unfolding claimed_by
claimed_by-id db slug x = refl

-- A claim that succeeds takes its command's identifier out of the queue.
claim_next_command-Perm :
    (db : Db) (slug : String) (tags : List String) (c' : Command)
    → IsValid db
    → (claim_next_command db slug tags).0 ≡ ok c'
    → Perm (queued_ids db) (c'.id ∷ queued_ids (claim_next_command db slug tags).1)
claim_next_command-Perm db slug tags c' v h =
    let (c, chosen, same, stored) = claim_next_command-ok db slug tags c' h in
    let (inside, passes) = next_claimable-mem db slug tags c chosen in
    let ready = claimable-Claimable db slug tags c passes in
    rw (stored, ap id_of same ∙ claimed_by-id db slug c)
      (taken_out (claimed_by db slug) (leaves_queue db slug) c db.commands v.ids_distinct inside
        ((eq_iff c.status "queued").1 ready.is_queued))

-- In a table with distinct keys, whatever claims arrive, the commands that were queued are, up to
-- order, those handed out and those still queued.
pub served-Perm :
    (db : Db) (rs : List Request)
    → IsValid db
    → Perm (queued_ids db) (served db rs ++ queued_ids (after_claims db rs))
unfolding served after_claims
served-Perm db [] v = Perm.refl _
served-Perm db (r ∷ rs) v = outcome (claim_next_command db₁ r.slug r.tags).0 refl (
    served-Perm (claim_next_command db₁ r.slug r.tags).1 rs
      (claim_next_command-IsValid db₁ r.slug r.tags (arriving-IsValid db r v)))
  where
    db₁ : Db
    db₁ = arriving db r

    db₂ : Db
    db₂ = (claim_next_command db₁ r.slug r.tags).1

    outcome :
        (result : Result Command)
        → (claim_next_command db₁ r.slug r.tags).0 ≡ result
        → Perm (queued_ids db₂) (served db₂ rs ++ queued_ids (after_claims db₂ rs))
        → Perm
            (queued_ids db)
            (note_served result (served db₂ rs) ++ queued_ids (after_claims db₂ rs))
    outcome (ok c') h rest =
        Perm.trans (claim_next_command-Perm db₁ r.slug r.tags c' (arriving-IsValid db r v) h)
          (Perm.cons c'.id rest)
    outcome (err e) h rest =
        subst (λ d. Perm (queued_ids d) (served db₂ rs ++ queued_ids (after_claims db₂ rs)))
          ((claim_next_command_refuses db₁ r.slug r.tags).1 e h) rest
