-- ===== src/Db/Runners/Presence.antt =====
-- UpdateRunnerHeartbeat, UpdateRunnerStatus and IncrementRunnerActiveCount of
-- server/internal/store/postgres/store.go.
use text.Mathlib.TextEquality.{eq_iff}
use jackrabbit.Base.{
  ℕ, zero, suc, ◌≡◌, ◌≢◌, ◌⊎◌, refl, ap, ◌∙◌, String, string_eq, nat_eq, ℤ, Bool, true, false,
  fits_int4, Option, none, some, arith, if◌then◌else◌, Bool-cases, ◌+ℤ◌, inl, inr,
}
use jackrabbit.Models.{Runner, Time}
use jackrabbit.Results.{ok, err, not_found, failed}
use jackrabbit.Table
use jackrabbit.Table.Rows.{affected-find, find-affected, update_none}
use jackrabbit.Table.Keys.{hits, affected-key}
use jackrabbit.Db.State.{Db, IsValid, has_slug, slug_of}
use jackrabbit.Db.Runners.{
  or_not_found, get_runner, update_runner_heartbeat, update_runner_status,
  increment_runner_active_count, found_rows, overflows,
}
use jackrabbit.Db.Runners.Register.{get_runner-slug, get_runner-update, get_runner-update_other}

-- What an UPDATE of the row of one slug does, by the row that is there.
module _ (db : Db) (slug : String) (f : Runner → Runner)
    (keeps : (r : Runner) → (f r).slug ≡ r.slug) where
  touch_found :
      (r : Runner)
      → get_runner db slug ≡ ok r
      → (found_rows (Table.affected (has_slug slug) db.runners) ≡ ok tt)
        × (get_runner (record db { runners = Table.update (has_slug slug) f db.runners }) slug
            ≡ ok (f r))
  touch_found r h = (
    counted (Table.affected (has_slug slug) db.runners) refl,
    get_runner-update db (has_slug slug) f keeps slug r h
        ∙ rw ((eq_iff r.slug slug).1 (get_runner-slug db slug r h)) refl,
  )
    where
      counted : (n : ℕ) → Table.affected (has_slug slug) db.runners ≡ n → found_rows n ≡ ok tt
      counted zero e =
          absurd (unfold get_runner in ground (arith, affected-find (has_slug slug) db.runners e))
      counted (suc n) e = refl

  touch_missing :
      get_runner db slug ≡ err not_found
      → (found_rows (Table.affected (has_slug slug) db.runners) ≡ err not_found)
        × (record db { runners = Table.update (has_slug slug) f db.runners } ≡ db)
  touch_missing h =
      let nothing : Table.affected (has_slug slug) db.runners ≡ 0 =
        find-affected (has_slug slug) db.runners
          (absent (Table.find (has_slug slug) db.runners) (unfold get_runner in h)) in
      (
        ap found_rows nothing,
        ap (λ rs. record db { runners = rs }) (update_none (has_slug slug) f db.runners nothing),
      )
    where
      absent : (o : Option Runner) → or_not_found o ≡ err not_found → o ≡ none
      absent none e = refl
      absent (some r) e = absurd (ground arith)

  touch_other :
      (other : String)
      → other ≢ slug
      → get_runner (record db { runners = Table.update (has_slug slug) f db.runners }) other
        ≡ get_runner db other
  touch_other other ne =
      get_runner-update_other db (has_slug slug) f keeps other
        (λ r h. ground (arith, eq_iff r.slug slug, get_runner-slug db other r h))

-- A heartbeat of a known runner makes it online and seen now; one of an unknown runner is answered
-- "not found" and changes nothing. No other runner changes. An orphaned runner that is back keeps
-- the time at which it was orphaned.
pub update_runner_heartbeat_lem :
    (db : Db) (slug : String) (now : Time)
    → let (result, db') = update_runner_heartbeat db slug now in
      ((r : Runner)
        → get_runner db slug ≡ ok r
        → (result ≡ ok tt)
          × (get_runner db' slug
              ≡ ok (record r { last_seen = some now; status = "online"; updated_at = now })))
      × (get_runner db slug ≡ err not_found → (result ≡ err not_found) × (db' ≡ db))
      × ((other : String) → other ≢ slug → get_runner db' other ≡ get_runner db other)
unfolding update_runner_heartbeat
update_runner_heartbeat_lem db slug now = (
  touch_found db slug _ (λ r. refl),
  touch_missing db slug _ (λ r. refl),
  touch_other db slug _ (λ r. refl),
)

-- A change of status, likewise.
pub update_runner_status_lem :
    (db : Db) (slug status : String) (now : Time)
    → let (result, db') = update_runner_status db slug status now in
      ((r : Runner)
        → get_runner db slug ≡ ok r
        → (result ≡ ok tt)
          × (get_runner db' slug ≡ ok (record r { status = status; updated_at = now })))
      × (get_runner db slug ≡ err not_found → (result ≡ err not_found) × (db' ≡ db))
      × ((other : String) → other ≢ slug → get_runner db' other ≡ get_runner db other)
unfolding update_runner_status
update_runner_status_lem db slug status now = (
  touch_found db slug _ (λ r. refl),
  touch_missing db slug _ (λ r. refl),
  touch_other db slug _ (λ r. refl),
)

abbrev lacks_room : ℤ → Runner → Bool
lacks_room delta r = if fits_int4 (r.active_count +ℤ delta) then false else true

overflow_count :
    (db : Db) (slug : String) (delta : ℤ)
    → IsValid db
    → Table.affected (overflows slug delta) db.runners
      ≡ hits (lacks_room delta) (Table.find (has_slug slug) db.runners)
unfolding overflows
overflow_count db slug delta v =
    affected-key slug_of slug (lacks_room delta) db.runners v.slugs_distinct

found_hits :
    (q : Runner → Bool) (o : Option Runner) (r : Runner)
    → or_not_found o ≡ ok r
    → hits q o ≡ hits q (some r)
found_hits q none r e = absurd (ground arith)
found_hits q (some s) r e = ap (λ t. hits q (some t)) (cc)

missing_hits :
    (q : Runner → Bool) (o : Option Runner) → or_not_found o ≡ err not_found → hits q o ≡ 0
missing_hits q none e = refl
missing_hits q (some s) e = absurd (ground arith)

room :
    (db : Db) (slug : String) (delta : ℤ) (r : Runner)
    → IsValid db
    → get_runner db slug ≡ ok r
    → Table.affected (overflows slug delta) db.runners ≡ hits (lacks_room delta) (some r)
unfolding get_runner
room db slug delta r v h = overflow_count db slug delta v ∙ found_hits (lacks_room delta) _ r h

increment_found :
    (db : Db) (slug : String) (delta : ℤ) (r : Runner)
    → IsValid db
    → get_runner db slug ≡ ok r
    → fits_int4 (r.active_count +ℤ delta) ≡ true
    → let (result, db') = increment_runner_active_count db slug delta in
      (result ≡ ok tt)
      × (get_runner db' slug
          ≡ ok (record r { active_count = r.active_count +ℤ delta; updated_at = db.now }))
unfolding increment_runner_active_count
increment_found db slug delta r v h fits =
    rw (room db slug delta r v h, fits) (touch_found db slug _ (λ s. refl) r h)

increment_full :
    (db : Db) (slug : String) (delta : ℤ) (r : Runner)
    → IsValid db
    → get_runner db slug ≡ ok r
    → fits_int4 (r.active_count +ℤ delta) ≡ false
    → increment_runner_active_count db slug delta ≡ (err (failed "increment active count"), db)
unfolding increment_runner_active_count
increment_full db slug delta r v h over = rw (room db slug delta r v h, over) refl

increment_missing :
    (db : Db) (slug : String) (delta : ℤ)
    → IsValid db
    → get_runner db slug ≡ err not_found
    → let (result, db') = increment_runner_active_count db slug delta in
      (result ≡ err not_found) × (db' ≡ db)
unfolding increment_runner_active_count
increment_missing db slug delta v h =
    rw (overflow_count db slug delta v, nothing) (touch_missing db slug _ (λ s. refl) h)
  where
    nothing : hits (lacks_room delta) (Table.find (has_slug slug) db.runners) ≡ 0
    nothing = missing_hits (lacks_room delta) _ (unfold get_runner in h)

-- Where keys are distinct, the count of active commands of a known runner moves by the given number, and the row is stamped
-- with the database's time, if the sum fits a column of type INT; if it does not, the call fails and
-- changes nothing. For an unknown runner the answer is "not found", and nothing changes.
pub increment_runner_active_count_lem :
    (db : Db) (slug : String) (delta : ℤ)
    → IsValid db
    → let (result, db') = increment_runner_active_count db slug delta in
      ((r : Runner)
        → get_runner db slug ≡ ok r
        → ((fits_int4 (r.active_count +ℤ delta) ≡ true)
            × (result ≡ ok tt)
            × (get_runner db' slug
                ≡ ok (record r { active_count = r.active_count +ℤ delta; updated_at = db.now })))
          ⊎ ((fits_int4 (r.active_count +ℤ delta) ≡ false)
              × (result ≡ err (failed "increment active count"))
              × (db' ≡ db)))
      × (get_runner db slug ≡ err not_found → (result ≡ err not_found) × (db' ≡ db))
increment_runner_active_count_lem db slug delta v = (known, increment_missing db slug delta v)
  where
    known :
        (r : Runner)
        → get_runner db slug ≡ ok r
        → ((fits_int4 (r.active_count +ℤ delta) ≡ true)
            × ((increment_runner_active_count db slug delta).0 ≡ ok tt)
            × (get_runner (increment_runner_active_count db slug delta).1 slug
                ≡ ok (record r { active_count = r.active_count +ℤ delta; updated_at = db.now })))
          ⊎ ((fits_int4 (r.active_count +ℤ delta) ≡ false)
              × ((increment_runner_active_count db slug delta).0
                  ≡ err (failed "increment active count"))
              × ((increment_runner_active_count db slug delta).1 ≡ db))
    known r h = elim (Bool-cases (fits_int4 (r.active_count +ℤ delta))) [
      | inl t ↦ let (a, b) = increment_found db slug delta r v h t in inl (t, a, b)
      | inr f ↦
          let e = increment_full db slug delta r v h f in inr (f, ap (λ p. p.0) e, ap (λ p. p.1) e)
    ]
