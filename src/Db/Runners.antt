-- ===== src/Db/Runners.antt =====
-- The runner operations of server/internal/store/postgres/store.go.
pub mod Register
pub mod Upsert
pub mod Presence
pub mod Listing
use jackrabbit.Base.{
  not, ℕ, zero, suc, String, nat_eq, string_eq, ℤ, ◌+ℤ◌, fits_int4, leb, ◌==◌, if◌then◌else◌, Bool,
  true, false, ◌&&◌, ◌||◌, any_of, Option, none, some, List, [], ◌∷◌, ◌++◌,
}
use jackrabbit.Models.{Time, Runner}
use jackrabbit.Results.{Result, ok, err, not_found, failed}
use jackrabbit.Table
use jackrabbit.Db.State.{has_nul, Db, before, is_null, has_slug}

inserted : Db → Runner → Time → Runner
inserted db r now = record r {
  last_seen = some now;
  orphaned_at = none;
  created_at = db.now;
  updated_at = now;
}

-- What ON CONFLICT (slug) DO UPDATE leaves alone: active_count, orphaned_at and created_at.
merged : Runner → Time → Runner → Runner
merged r now old = record old {
  name = r.name;
  tags = r.tags;
  status = r.status;
  concurrency_limit = r.concurrency_limit;
  gpu_capable = r.gpu_capable;
  last_seen = some now;
  updated_at = now;
}

put_runner : Db → Runner → Time → Option Runner → Db
unfolding inserted merged
put_runner db r now none = record db { runners = db.runners ++ inserted db r now ∷ [] }
put_runner db r now (some _) = record db {
  runners = Table.update (has_slug r.slug) (merged r now) db.runners;
}

all_text : List String → Bool
all_text [] = true
all_text (s ∷ ss) = not (has_nul s) && all_text ss

-- No text of the row has a NUL character.
unfoldable pub has_texts : Runner → Bool
unfolding all_text
has_texts r =
    not (has_nul r.slug) && not (has_nul r.name) && all_text r.tags && not (has_nul r.status)

unfoldable pub upsert_runner : Db → Runner → Time → Result (Unit {0}) × Db
unfolding put_runner
upsert_runner db r now =
    if has_texts r && fits_int4 r.concurrency_limit && fits_int4 r.active_count
    then (ok tt, put_runner db r now (Table.find (has_slug r.slug) db.runners))
    else (err (failed "upsert runner"), db)

abbrev pub or_not_found {ℓ} : {A : Type ℓ} → Option A → Result A
or_not_found none = err not_found
or_not_found (some a) = ok a

unfoldable pub get_runner : Db → String → Result Runner
get_runner db slug = or_not_found (Table.find (has_slug slug) db.runners)

-- tags && $2.
unfoldable pub overlaps : List String → List String → Bool
unfolding any_of
overlaps [] ys = false
overlaps (x ∷ xs) ys = any_of ys x || overlaps xs ys

abbrev pub no_tags : List String → Bool
no_tags [] = true
no_tags (_ ∷ _) = false

-- An empty status or list of tags is passed as NULL, and filters nothing.
unfoldable pub listed : List String → String → Runner → Bool
unfolding overlaps
listed tags status r =
    (status == "" || r.status == status) && (no_tags tags || overlaps r.tags tags)

abbrev pub newest_first : Runner → Runner → Bool
newest_first r s = leb s.created_at r.created_at

unfoldable pub list_runners : Db → List String → String → List Runner
unfolding listed
list_runners db tags status =
    Table.sort_by newest_first (Table.select (listed tags status) db.runners)

-- The tail of the operations that look at RowsAffected.
abbrev pub found_rows : ℕ → Result (Unit {0})
found_rows zero = err not_found
found_rows (suc _) = ok tt

abbrev update_runners : Db → (Runner → Bool) → (Runner → Runner) → Db
update_runners db p f = record db { runners = Table.update p f db.runners }

unfoldable pub update_runner_heartbeat : Db → String → Time → Result (Unit {0}) × Db
update_runner_heartbeat db slug now = (
  found_rows (Table.affected (has_slug slug) db.runners),
  update_runners db (has_slug slug)
      λ r. record r { last_seen = some now; status = "online"; updated_at = now },
)

unfoldable pub update_runner_status : Db → String → String → Time → Result (Unit {0}) × Db
update_runner_status db slug status now = (
  found_rows (Table.affected (has_slug slug) db.runners),
  update_runners db (has_slug slug) λ r. record r { status = status; updated_at = now },
)

-- PostgreSQL refuses a sum outside INT.
pub overflows : String → ℤ → Runner → Bool
overflows slug delta r =
    has_slug slug r && (if fits_int4 (r.active_count +ℤ delta) then false else true)

unfoldable pub increment_runner_active_count : Db → String → ℤ → Result (Unit {0}) × Db
unfolding overflows
increment_runner_active_count db slug delta =
    if Table.affected (overflows slug delta) db.runners == 0
    then (
      found_rows (Table.affected (has_slug slug) db.runners),
      update_runners db (has_slug slug)
          λ r. record r { active_count = r.active_count +ℤ delta; updated_at = db.now },
    )
    else (err (failed "increment active count"), db)

abbrev pub is_lost : Time → Runner → Bool
is_lost cutoff r = r.status == "offline" && before r.last_seen cutoff && is_null r.orphaned_at

abbrev pub orphan : Time → Runner → Runner
orphan now r = record r { status = "orphaned"; orphaned_at = some now; updated_at = now }

unfoldable pub mark_orphaned_runners : Db → Time → ℕ × Db
mark_orphaned_runners db cutoff =
    (Table.affected (is_lost cutoff) db.runners, update_runners db (is_lost cutoff) (orphan db.now))
