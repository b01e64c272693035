-- ===== src/Db/Rollups/Buckets.antt =====
-- When the buckets of RollupMetrics (server/internal/store/postgres/store.go) are refused.
use jackrabbit.Base.{
  ◌≡◌, ◌⊎◌, refl, ap, sym, ◌∙◌, nat_eq, string_eq, Option, none, some, List, [], ◌∷◌, Memᴰ, arith,
  inl, inr,
}
use jackrabbit.Models.{Time, Metric}
use jackrabbit.Db.Rollups.{Bucket, buckets, cons_bucket}

cons_bucket-none :
    (m : Metric) (o : Option Time) (r : Option (List Bucket))
    → cons_bucket m o r ≡ none
    → (o ≡ none) ⊎ (r ≡ none)
unfolding cons_bucket
cons_bucket-none m none r h = inl refl
cons_bucket-none m (some t) none h = inr refl
cons_bucket-none m (some t) (some cs) h = absurd (ground arith)

none-cons_bucket : (m : Metric) (o : Option Time) → cons_bucket m o none ≡ none
unfolding cons_bucket
none-cons_bucket m none = refl
none-cons_bucket m (some t) = refl

module _ (trunc : Time → Option Time) where
  pub buckets_refused :
      (ms : List Metric)
      → buckets trunc ms ≡ none
      → (m : Metric) × Memᴰ m ms × (trunc m.sample_ts ≡ none)
  unfolding buckets
  buckets_refused [] h = absurd (ground arith)
  buckets_refused (x ∷ ms) h = elim (cons_bucket-none x (trunc x.sample_ts) (buckets trunc ms) h) [
    | inl q ↦ (x, Memᴰ.head refl, q)
    | inr q ↦ let (m, n, r) = buckets_refused ms q in (m, Memᴰ.tail n, r)
  ]

  pub buckets-none :
      (ms : List Metric) (m : Metric)
      → Memᴰ m ms
      → trunc m.sample_ts ≡ none
      → buckets trunc ms ≡ none
  unfolding buckets
  buckets-none [] m n q = elim n [ ]
  buckets-none (x ∷ ms) m (Memᴰ.head e) q =
      rw (ap (λ (y : Metric). trunc y.sample_ts) (sym e) ∙ q) (unfold cons_bucket in refl)
  buckets-none (x ∷ ms) m (Memᴰ.tail n) q =
      rw (buckets-none ms m n q) (none-cons_bucket x (trunc x.sample_ts))
