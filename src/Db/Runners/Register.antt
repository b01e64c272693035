-- ===== src/Db/Runners/Register.antt =====
-- UpsertRunner and GetRunner of server/internal/store/postgres/store.go, and the statements that
-- change one runner by its slug.
use mathlib.Core.Option
use text.Mathlib.TextEquality.{eq_iff}
use jackrabbit.Base.{
  ◌≡◌, refl, ap, ◌∙◌, String, string_eq, ◌==◌, Bool, true, false, Option, none, some, arith,
  if◌then◌else◌,
}
use jackrabbit.Models.{Runner}
use jackrabbit.Results.{ok}
use jackrabbit.Table
use jackrabbit.Table.Rows.{find-update, find_passes}
use jackrabbit.Db.State.{Db, has_slug}
use jackrabbit.Db.Runners.{or_not_found, get_runner}

-- The row that a slug finds has that slug.
pub get_runner-slug :
    (db : Db) (slug : String) (r : Runner) → get_runner db slug ≡ ok r → r.slug ≡ slug
unfolding get_runner
get_runner-slug db slug r h =
    (eq_iff r.slug slug).0 (found (Table.find (has_slug slug) db.runners) refl h)
  where
    found :
        (o : Option Runner)
        → Table.find (has_slug slug) db.runners ≡ o
        → or_not_found o ≡ ok r
        → (r.slug == slug) ≡ true
    found none e q = absurd (ground arith)
    found (some s) e q = find_passes (has_slug slug) db.runners r (e ∙ ground arith)

module _ (db : Db) (p : Runner → Bool) (f : Runner → Runner)
    (keeps : (r : Runner) → (f r).slug ≡ r.slug) where
  find_updated :
      (slug : String)
      → Table.find (has_slug slug) (Table.update p f db.runners)
        ≡ Option.map (λ r. if p r then f r else r) (Table.find (has_slug slug) db.runners)
  find_updated slug =
      find-update (has_slug slug) p f db.runners (λ r. ap (λ s. s == slug) (keeps r))

  -- An UPDATE acts on each row by itself.
  pub get_runner-update :
      (slug : String) (r : Runner)
      → get_runner db slug ≡ ok r
      → get_runner (record db { runners = Table.update p f db.runners }) slug
        ≡ ok (if p r then f r else r)
  unfolding get_runner
  get_runner-update slug r h =
      ap or_not_found (find_updated slug) ∙ mapped (Table.find (has_slug slug) db.runners) h
    where
      mapped :
          (o : Option Runner)
          → or_not_found o ≡ ok r
          → or_not_found (Option.map (λ s. if p s then f s else s) o) ≡ ok (if p r then f r else r)
      mapped none e = absurd (ground arith)
      mapped (some s) e = ap (λ s. ok (if p s then f s else s)) (ground arith)

  pub get_runner-update_other :
      (slug : String)
      → ((r : Runner) → get_runner db slug ≡ ok r → p r ≡ false)
      → get_runner (record db { runners = Table.update p f db.runners }) slug ≡ get_runner db slug
  unfolding get_runner
  get_runner-update_other slug h =
      ap or_not_found (find_updated slug) ∙ kept (Table.find (has_slug slug) db.runners) h
    where
      kept :
          (o : Option Runner)
          → ((r : Runner) → or_not_found o ≡ ok r → p r ≡ false)
          → or_not_found (Option.map (λ s. if p s then f s else s) o) ≡ or_not_found o
      kept none k = refl
      kept (some s) k = rw (k s refl) refl
