-- ===== src/Db/Rollups/Refusals.antt =====
-- When RollupMetrics of server/internal/store/postgres/store.go fails, and what it leaves then.
use jackrabbit.Base.{
  some-injective, some-ne-none, ℕ, ◌≡◌, ◌≢◌, ◌↔◌, ◌⊎◌, refl, ap, sym, ◌∙◌, nat_eq, string_eq,
  String, none, some, List, [], ◌∷◌, Memᴰ, Option-cases, inl, inr, length,
}
use jackrabbit.Models.{Time, Metric}
use jackrabbit.Results.{Result, ok, err, Error, failed}
use jackrabbit.Table
use jackrabbit.Table.Rows.{length-select, update_none}
use jackrabbit.Db.State.{Db}
use jackrabbit.Db.Rollups.{
  Aggregates, Bucket, bucket_interval, is_pending, buckets, groups, rollup_metrics, roll,
  mark_rolled_up, put_rollups, roll_up,
}
use jackrabbit.Db.Rollups.Buckets.{buckets_refused, buckets-none}
use jackrabbit.Db.Rollups.Outcome.{pending, computed, refused, all_marked}

unsupported :
    (pg : Aggregates) (db : Db) (resolution : String) (start end : Time)
    → bucket_interval resolution ≡ none
    → rollup_metrics pg db resolution start end ≡ (err (failed "unsupported resolution"), db)
unfolding rollup_metrics roll
unsupported pg db resolution start end h = rw h refl

List-cases {ℓ} : {A : Type ℓ} (xs : List A) → (xs ≡ []) ⊎ ((x : A) × Memᴰ x xs)
List-cases [] = inl refl
List-cases (x ∷ xs) = inr (x, Memᴰ.head refl)

ok-ne-err : {n : ℕ} {e : Error} → ◌≢◌ {A = Result ℕ} (ok n) (err e)
ok-ne-err h = cc

-- A call fails exactly for a resolution that is not known, or when the database cannot compute the
-- bucket of a pending sample of the window; and a call that fails changes nothing.
pub rollup_metrics_refuses :
    (pg : Aggregates) (db : Db) (resolution : String) (start end : Time)
    → let (result, db') = rollup_metrics pg db resolution start end in
      (((e : Error) × (result ≡ err e)) ↔ (
        (bucket_interval resolution ≡ none)
        ⊎ ((unit : String) × (bucket_interval resolution ≡ some unit)
            × ((m : Metric) × Memᴰ m (pending db start end)
                × (pg.date_trunc unit m.sample_ts ≡ none)))))
      × ((e : Error) → result ≡ err e → db' ≡ db)
rollup_metrics_refuses pg db resolution start end =
    elim (Option-cases (bucket_interval resolution)) [
      | inl h ↦
          let same = unsupported pg db resolution start end h in
          (
            ((λ _. inl h), (λ _. (failed "unsupported resolution", ap (λ r. r.0) same))),
            (λ e _. ap (λ r. r.1) same),
          )
      | inr (unit, known) ↦
          elim (Option-cases (buckets (pg.date_trunc unit) (pending db start end))) [
            | inl h ↦
                let same = refused pg db resolution unit start end known h in
                (
                  (
                    (λ _. inr (unit, known, buckets_refused (pg.date_trunc unit) _ h)),
                    (λ _. (failed "rollup metrics", ap (λ r. r.0) same)),
                  ),
                  (λ e _. ap (λ r. r.1) same),
                )
            | inr (bs, all) ↦
                let counted = (all_marked pg db resolution unit start end known bs all).0 in
                (
                  (
                    (λ (e, h). absurd (ok-ne-err (sym counted ∙ h))),
                    (λ o. absurd (computable bs unit known all o)),
                  ),
                  (λ e h. absurd (ok-ne-err (sym counted ∙ h))),
                )
          ]
    ]
  where
    computable :
        (bs : List Bucket) (unit : String)
        → bucket_interval resolution ≡ some unit
        → buckets (pg.date_trunc unit) (pending db start end) ≡ some bs
        → ¬ (
            (bucket_interval resolution ≡ none)
            ⊎ ((u : String) × (bucket_interval resolution ≡ some u)
                × ((m : Metric) × Memᴰ m (pending db start end)
                    × (pg.date_trunc u m.sample_ts ≡ none))))
    computable bs unit known all (inl h) = some-ne-none (sym known ∙ h)
    computable bs unit known all (inr (u, h, (m, inside, broken))) =
        let same : u ≡ unit = some-injective (sym h ∙ known) in
        some-ne-none (
          sym all
          ∙ buckets-none (pg.date_trunc unit) (pending db start end) m inside (rw same at broken))

idle :
    (pg : Aggregates) (db : Db) (resolution unit : String) (start end : Time)
    → bucket_interval resolution ≡ some unit
    → pending db start end ≡ []
    → rollup_metrics pg db resolution start end ≡ (ok 0, db)
unfolding mark_rolled_up put_rollups groups
idle pg db resolution unit start end known empty =
    let none_touched : Table.affected (is_pending start end) db.metrics ≡ 0 =
      sym (length-select (is_pending start end) db.metrics) ∙ ap length empty in
    computed pg db resolution unit start end known []
      (ap (buckets (pg.date_trunc unit)) empty ∙ (unfold buckets in refl))
    ∙ rw (none_touched, update_none (is_pending start end) roll_up db.metrics none_touched) refl

-- Where the database refuses the unit, nothing changes.
pub rollup_metrics_refused :
    (pg : Aggregates) (db : Db) (resolution unit : String) (start end : Time)
    → bucket_interval resolution ≡ some unit
    → ((t : Time) → pg.date_trunc unit t ≡ none)
    → (rollup_metrics pg db resolution start end).1 ≡ db
rollup_metrics_refused pg db resolution unit start end known none_known =
    elim (List-cases (pending db start end)) [
      | inl empty ↦ ap (λ r. r.1) (idle pg db resolution unit start end known empty)
      | inr (m, inside) ↦
          ap (λ r. r.1)
            (refused pg db resolution unit start end known (
              buckets-none (pg.date_trunc unit) (pending db start end) m inside
                (none_known m.sample_ts)))
    ]
