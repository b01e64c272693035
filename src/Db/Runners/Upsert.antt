-- ===== src/Db/Runners/Upsert.antt =====
-- UpsertRunner of server/internal/store/postgres/store.go: what a first and a repeated registration
-- leave in the table of runners.
use text.Mathlib.TextEquality.{eq_iff}
use text.Mathlib.TextPositions.{eq_refl}
use jackrabbit.Base.{
  ◌≡◌, ◌≢◌, refl, ap, ◌∙◌, String, string_eq, true, fits_int4, Option, none, some, arith,
}
use jackrabbit.Models.{Runner, Time}
use jackrabbit.Results.{ok, err, not_found}
use jackrabbit.Table
use jackrabbit.Table.Rows.{find-snoc, find-snoc_other, find-affected}
use jackrabbit.Table.Keys.{Distinct-snoc, Distinct-update}
use jackrabbit.Db.State.{Db, IsValid, has_slug, slug_of}
use jackrabbit.Db.Runners.{
  has_texts, or_not_found, get_runner, upsert_runner, put_runner, inserted, merged,
}
use jackrabbit.Db.Runners.Register.{get_runner-slug, get_runner-update, get_runner-update_other}

-- The numbers of a runner fit their columns.
abbrev pub Storable : Runner → Type 0
Storable r =
    (has_texts r ≡ true)
    × (fits_int4 r.concurrency_limit ≡ true)
    × (fits_int4 r.active_count ≡ true)

upsert_taken :
    (db : Db) (r : Runner) (now : Time)
    → Storable r
    → upsert_runner db r now
      ≡ (ok tt, put_runner db r now (Table.find (has_slug r.slug) db.runners))
unfolding upsert_runner
upsert_taken db r now (texts, limit, count) = rw (texts, limit, count) refl

module _ (db : Db) (r : Runner) (now : Time) where
  insert_self :
      (o : Option Runner)
      → Table.find (has_slug r.slug) db.runners ≡ o
      → or_not_found o ≡ err not_found
      → get_runner (put_runner db r now o) r.slug ≡ ok (inserted db r now)
  unfolding put_runner get_runner inserted
  insert_self none e h = ap or_not_found (
      find-snoc (has_slug r.slug) db.runners _ (find-affected (has_slug r.slug) db.runners e)
        (eq_refl r.slug))
  insert_self (some old) e h = absurd (ground arith)

  merge_self :
      (o : Option Runner) (old : Runner)
      → Table.find (has_slug r.slug) db.runners ≡ o
      → or_not_found o ≡ ok old
      → get_runner (put_runner db r now o) r.slug ≡ ok (merged r now old)
  unfolding put_runner merged
  merge_self none old e h = absurd (ground arith)
  merge_self (some s) old e h =
      let row : get_runner db r.slug ≡ ok old = unfold get_runner in (ap or_not_found e ∙ h) in
      get_runner-update db (has_slug r.slug) (merged r now) (λ s. refl) r.slug old row
      ∙ rw ((eq_iff old.slug r.slug).1 (get_runner-slug db r.slug old row)) refl

  others_stay :
      (o : Option Runner) (other : String)
      → other ≢ r.slug
      → get_runner (put_runner db r now o) other ≡ get_runner db other
  unfolding put_runner merged
  others_stay none other ne =
      unfold get_runner inserted in
      ap or_not_found
        (find-snoc_other (has_slug other) db.runners _ (ground (arith, eq_iff r.slug other)))
  others_stay (some s) other ne =
      get_runner-update_other db (has_slug r.slug) (merged r now) (λ s. refl) other
        (λ q h. ground (arith, eq_iff q.slug r.slug, get_runner-slug db other q h))

  put-IsValid :
      (o : Option Runner)
      → Table.find (has_slug r.slug) db.runners ≡ o
      → IsValid db
      → IsValid (put_runner db r now o)
  unfolding put_runner merged inserted
  put-IsValid none e v = record {
    slugs_distinct =
        Distinct-snoc slug_of _ db.runners (find-affected (has_slug r.slug) db.runners e)
          v.slugs_distinct;
    ids_distinct = v.ids_distinct;
  }
  put-IsValid (some s) e v = record {
    slugs_distinct =
        Distinct-update slug_of (has_slug r.slug) (merged r now) db.runners (λ s. refl)
          v.slugs_distinct;
    ids_distinct = v.ids_distinct;
  }

-- Where keys are distinct, a registration whose numbers fit their columns, and whose texts have no NUL
-- character, succeeds. A slug that is new gets the given row, seen now, updated now, created at the
-- database's time and not orphaned. A slug that is known gets the given name, tags, status, limit and
-- capability and is seen and updated now, and keeps its count of active commands, its time of
-- creation and the time at which it was found orphaned. Other runners stay, and keys stay distinct.
pub upsert_runner_lem :
    (db : Db) (r : Runner) (now : Time)
    → IsValid db
    → Storable r
    → let (result, db') = upsert_runner db r now in
      (result ≡ ok tt)
      × (get_runner db r.slug ≡ err not_found
          → get_runner db' r.slug
            ≡ ok (record r {
              last_seen = some now;
              orphaned_at = none;
              created_at = db.now;
              updated_at = now;
            }))
      × ((old : Runner)
          → get_runner db r.slug ≡ ok old
          → get_runner db' r.slug
            ≡ ok (record r {
              slug = old.slug;
              active_count = old.active_count;
              last_seen = some now;
              orphaned_at = old.orphaned_at;
              created_at = old.created_at;
              updated_at = now;
            }))
      × ((other : String) → other ≢ r.slug → get_runner db' other ≡ get_runner db other)
      × IsValid db'
unfolding get_runner inserted merged
upsert_runner_lem db r now v fits = rw (upsert_taken db r now fits) (
  refl,
  insert_self db r now (Table.find (has_slug r.slug) db.runners) refl,
  (λ old. merge_self db r now (Table.find (has_slug r.slug) db.runners) old refl),
  others_stay db r now (Table.find (has_slug r.slug) db.runners),
  put-IsValid db r now (Table.find (has_slug r.slug) db.runners) refl v,
)
