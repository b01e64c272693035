-- ===== src/Db/Commands/Claim.antt =====
-- What ClaimNextCommand of server/internal/store/postgres/store.go takes from the queue.
use text.Mathlib.TextEquality.{eq_iff}
use jackrabbit.Base.{
  ◌<◌, ◌≤◌, All-mem, ◌≡◌, refl, String, true, false, ◌||◌, nat_eq, string_eq, Option, none, some,
  List, [], ◌∷◌, Memᴰ, any_of, any_of-mem, mem-any_of, arith, tests, ◌⊎◌, inl, inr, Bool-cases,
}
use jackrabbit.Models.{Command, Time}
use jackrabbit.Results.{ok}
use jackrabbit.Table
use jackrabbit.Table.Keys.{mem-select, select-mem}
use jackrabbit.Table.Sorting.{
  first-mem, first-not_none, mem-sort_by, sort_by-mem, IsSorted, sort_by-IsSorted,
}
use jackrabbit.Db.State.{Db, has_id, is_null, after}
use jackrabbit.Db.Commands.{
  targets, claimable, oldest_first, next_claimable, take_claim, claimed_by, claim_next_command,
}

pub next_claimable-mem :
    (db : Db) (slug : String) (tags : List String) (c : Command)
    → next_claimable db slug tags ≡ some c
    → Memᴰ c db.commands × (claimable db slug tags c ≡ true)
next_claimable-mem db slug tags c h =
    mem-select c (claimable db slug tags) db.commands (mem-sort_by oldest_first c _ (first-mem _ h))

take_claim-ok :
    (db : Db) (slug : String) (o : Option Command) (c' : Command)
    → (take_claim db slug o).0 ≡ ok c'
    → (c : Command) × (o ≡ some c)
      × (c' ≡ claimed_by db slug c)
      × ((take_claim db slug o).1
          ≡ record db { commands = Table.update (has_id c.id) (claimed_by db slug) db.commands })
unfolding take_claim
take_claim-ok db slug none c' h = absurd (ground arith)
take_claim-ok db slug (some c) c' h = (c, refl, ground arith, ground arith)

-- A claim that succeeds changed the row of a command that could be claimed.
pub claim_next_command-ok :
    (db : Db) (slug : String) (tags : List String) (c' : Command)
    → (claim_next_command db slug tags).0 ≡ ok c'
    → (c : Command) × (next_claimable db slug tags ≡ some c)
      × (c' ≡ claimed_by db slug c)
      × ((claim_next_command db slug tags).1
          ≡ record db { commands = Table.update (has_id c.id) (claimed_by db slug) db.commands })
unfolding claim_next_command
claim_next_command-ok db slug tags c' h = take_claim-ok db slug (next_claimable db slug tags) c' h

-- What a runner may be given, in the words of the queue.
pub record Claimable (db : Db) (slug : String) (tags : List String) (c : Command) : Type 0 where
  pub is_queued : c.status ≡ "queued"
  pub is_target :
      ((c.target_type ≡ "slug") × (c.target_value ≡ slug))
      ⊎ ((c.target_type ≡ "tag") × Memᴰ c.target_value tags)
  pub in_time : (t : Time) → c.deadline ≡ some t → db.now < t
  pub is_free : ¬ Memᴰ c.id db.locked

-- The WHERE clause of the claim says just that.
pub claimable-Claimable :
    (db : Db) (slug : String) (tags : List String) (c : Command)
    → claimable db slug tags c ≡ true
    → Claimable db slug tags c
unfolding claimable targets
claimable-Claimable db slug tags c h = record {
  is_queued = ground (arith, eq_iff c.status "queued");
  is_target = ground (
    arith,
    eq_iff c.target_type "slug",
    eq_iff c.target_type "tag",
    eq_iff c.target_value slug,
    any_of-mem tags c.target_value,
  );
  in_time = λ t e. ground arith;
  is_free = λ m. ground (arith, mem-any_of db.locked c.id m);
}

deadline_passes :
    (o : Option Time) (now : Time)
    → ((t : Time) → o ≡ some t → now < t)
    → (is_null o || after o now) ≡ true
deadline_passes none now h = refl
deadline_passes (some t) now h = omega (tests, h t refl)

target_passes :
    (slug : String) (tags : List String) (c : Command)
    → ((c.target_type ≡ "slug") × (c.target_value ≡ slug))
      ⊎ ((c.target_type ≡ "tag") × Memᴰ c.target_value tags)
    → targets slug tags c ≡ true
unfolding targets
target_passes slug tags c (inl h) =
    ground (arith, eq_iff c.target_type "slug", eq_iff c.target_value slug)
target_passes slug tags c (inr h) =
    ground (arith, eq_iff c.target_type "tag", mem-any_of tags c.target_value h.1)

pub Claimable-claimable :
    (db : Db) (slug : String) (tags : List String) (c : Command)
    → Claimable db slug tags c
    → claimable db slug tags c ≡ true
unfolding claimable
Claimable-claimable db slug tags c v = ground (
  arith,
  deadline_passes c.deadline db.now v.in_time,
  target_passes slug tags c v.is_target,
  eq_iff c.status "queued",
  not_locked (any_of-mem db.locked c.id),
)
  where
    not_locked :
        (any_of db.locked c.id ≡ true → Memᴰ c.id db.locked) → any_of db.locked c.id ≡ false
    not_locked sound = elim (Bool-cases (any_of db.locked c.id)) [
      | inl t ↦ absurd (v.is_free (sound t))
      | inr f ↦ f
    ]

oldest_first-total : (c d : Command) → oldest_first c d ≡ false → oldest_first d c ≡ true
oldest_first-total c d h = ground arith

oldest_first_trans :
    (c d e : Command) → oldest_first c d ≡ true → oldest_first d e ≡ true → oldest_first c e ≡ true
oldest_first_trans c d e p q = ground arith

IsSorted-first :
    (xs : List Command) (c d : Command)
    → IsSorted oldest_first xs
    → Table.first xs ≡ some c
    → Memᴰ d xs
    → c.created_at ≤ d.created_at
IsSorted-first [] c d s h m = elim m [ ]
IsSorted-first (x ∷ xs) c d s h (Memᴰ.head q) = ground arith
IsSorted-first (x ∷ xs) c d s h (Memᴰ.tail m) =
    ground (arith, All-mem (λ y. oldest_first x y ≡ true) xs d s.0 m)

-- The chosen command is as old as any that could have been chosen.
pub next_claimable-oldest :
    (db : Db) (slug : String) (tags : List String) (c d : Command)
    → next_claimable db slug tags ≡ some c
    → Memᴰ d db.commands
    → Claimable db slug tags d
    → c.created_at ≤ d.created_at
next_claimable-oldest db slug tags c d h m v =
    IsSorted-first _ c d
      (sort_by-IsSorted oldest_first oldest_first-total oldest_first_trans
        (Table.select (claimable db slug tags) db.commands))
      h
      (sort_by-mem oldest_first d _ (
        select-mem d (claimable db slug tags) db.commands m (Claimable-claimable db slug tags d v)))

pub next_claimable-none :
    (db : Db) (slug : String) (tags : List String) (d : Command)
    → next_claimable db slug tags ≡ none
    → Memᴰ d db.commands
    → ¬ Claimable db slug tags d
next_claimable-none db slug tags d h m v = first-not_none _ h (
    sort_by-mem oldest_first d _
      (select-mem d (claimable db slug tags) db.commands m (Claimable-claimable db slug tags d v)))
