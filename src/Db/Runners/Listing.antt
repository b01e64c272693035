-- ===== src/Db/Runners/Listing.antt =====
-- ListRunners of server/internal/store/postgres/store.go: which runners are listed, and in which
-- order.
use text.Mathlib.TextEquality.{eq_iff}
use jackrabbit.Base.{
  ◌≡◌, ◌⊎◌, ◌↔◌, inl, inr, refl, subst, String, string_eq, Bool, true, false, ◌&&◌, ◌||◌, List,
  arith, ◌∷◌, [], Bool-cases, Memᴰ, any_of, any_of-mem, mem-any_of,
}
use jackrabbit.Models.{Runner}
use jackrabbit.Table
use jackrabbit.Table.Keys.{mem-select, select-mem}
use jackrabbit.Table.Sorting.{mem-sort_by, sort_by-mem, IsSorted, sort_by-IsSorted}
use jackrabbit.Db.State.{Db}
use jackrabbit.Db.Runners.{list_runners, listed, overlaps, no_tags, newest_first}

-- The runners that a query asks for: of a status, if one is given, and with one of the tags, if any
-- are given.
pub record IsWanted (tags : List String) (status : String) (r : Runner) : Type 0 where
  pub of_status : (status ≡ "") ⊎ (r.status ≡ status)
  pub of_tag : (tags ≡ []) ⊎ ((t : String) × Memᴰ t r.tags × Memᴰ t tags)

overlaps-mem : (xs ys : List String) → overlaps xs ys ≡ true → (t : String) × Memᴰ t xs × Memᴰ t ys
unfolding overlaps
overlaps-mem [] ys h = absurd (ground arith)
overlaps-mem (x ∷ xs) ys h = elim (Bool-cases (any_of ys x)) [
  | inl t ↦ (x, Memᴰ.head refl, any_of-mem ys x t)
  | inr f ↦ let (t, m, n) = overlaps-mem xs ys (rw f at h) in (t, Memᴰ.tail m, n)
]

mem-overlaps : (xs ys : List String) (t : String) → Memᴰ t xs → Memᴰ t ys → overlaps xs ys ≡ true
unfolding overlaps
mem-overlaps [] ys t m n = elim m [ ]
mem-overlaps (x ∷ xs) ys t (Memᴰ.head e) n = rw (mem-any_of ys x (subst (λ u. Memᴰ u ys) e n)) refl
mem-overlaps (x ∷ xs) ys t (Memᴰ.tail m) n = ground (arith, mem-overlaps xs ys t m n)

listed-tags :
    (tags : List String) (r : Runner)
    → (no_tags tags || overlaps r.tags tags) ≡ true
    → (tags ≡ []) ⊎ ((t : String) × Memᴰ t r.tags × Memᴰ t tags)
listed-tags [] r h = inl refl
listed-tags (t ∷ ts) r h = inr (overlaps-mem r.tags (t ∷ ts) h)

tags-listed :
    (tags : List String) (r : Runner)
    → (tags ≡ []) ⊎ ((t : String) × Memᴰ t r.tags × Memᴰ t tags)
    → (no_tags tags || overlaps r.tags tags) ≡ true
tags-listed [] r h = refl
tags-listed (t ∷ ts) r (inl e) = absurd (ground arith)
tags-listed (t ∷ ts) r (inr (u, m, n)) = mem-overlaps r.tags (t ∷ ts) u m n

and-true : (a b : Bool) → (a && b) ≡ true → (a ≡ true) × (b ≡ true)
and-true a b h = ground arith

listed_iff :
    (tags : List String) (status : String) (r : Runner)
    → (listed tags status r ≡ true) ↔ IsWanted tags status r
unfolding listed
listed_iff tags status r = (
  (λ h.
      let (s, t) = and-true _ (no_tags tags || overlaps r.tags tags) h in
      record {
        of_status = ground (arith, eq_iff status "", eq_iff r.status status);
        of_tag = listed-tags tags r t;
      }),
  (λ w.
      ground (
        arith,
        eq_iff status "",
        eq_iff r.status status,
        w.of_status,
        tags-listed tags r w.of_tag,
      )),
)

newest_first-total : (r s : Runner) → newest_first r s ≡ false → newest_first s r ≡ true
newest_first-total r s h = ground arith

newest_first_trans :
    (r s t : Runner) → newest_first r s ≡ true → newest_first s t ≡ true → newest_first r t ≡ true
newest_first_trans r s t p q = ground arith

-- The list holds exactly the runners of the table that the query wants, the newest first.
pub list_runners_lem :
    (db : Db) (tags : List String) (status : String)
    → ((r : Runner)
        → Memᴰ r (list_runners db tags status) ↔ (Memᴰ r db.runners × IsWanted tags status r))
      × IsSorted newest_first (list_runners db tags status)
unfolding list_runners
list_runners_lem db tags status = (
  (λ r. (
    (λ m.
        let (inside, t) =
          mem-select r (listed tags status) db.runners (mem-sort_by newest_first r _ m) in
        (inside, (listed_iff tags status r).0 t)),
    (λ w.
        sort_by-mem newest_first r _
          (select-mem r (listed tags status) db.runners w.0 ((listed_iff tags status r).1 w.1))),
  )),
  sort_by-IsSorted newest_first newest_first-total newest_first_trans
      (Table.select (listed tags status) db.runners),
)
