-- ===== src/Table/Removal.antt =====
-- DELETE … WHERE id IN (SELECT id … ORDER BY … LIMIT …): the first rows of an order go.
use mathlib.Core.List.{Memᴰ}
use mathlib.Core.List.Memᴰ
use jackrabbit.Base.{
  ℕ, ◌+◌, ◌-◌, min, ◌≡◌, ◌≢◌, sym, ap, ap₂, ◌∙◌, subst, Bool, true, false, not, List, [], ◌∷◌, ◌++◌,
  map, take, drop, length, length-take, take-append-drop, All, All-mem, Eq, ◌==◌, any_of,
  any_of-mem, mem-any_of, arith, Bool-cases, inl, inr, some, Option,
}
use jackrabbit.Table.Rows.{select, find, affected, length-select, All-select}
use jackrabbit.Table.Counts.{
  affected-sort_by, affected-append, affected_all, affected_none, length-sort_by,
  affected-select-not, affected-select_all, take-drop-le,
}
use jackrabbit.Table.Keys.{Distinct, find-mem, mem-select, select-mem}
use jackrabbit.Table.Sorting.{
  sort_by, insert_by, All-insert_by, All-sort_by, mem-sort_by, sort_by-mem, IsSorted,
}

module _ {ℓ κ} {A : Type ℓ} {K : Type κ} ⦃e : Eq K⦄ (key : A → K) (le : A → A → Bool) where
  some-injective : {x y : A} → ◌≡◌ {A = Option A} (some x) (some y) → x ≡ y
  some-injective h = ground arith

  Distinct-insert_by :
      (x : A) (ys : List A)
      → All (λ y. key y ≢ key x) ys
      → Distinct key ys
      → Distinct key (insert_by le x ys)
  unfolding insert_by
  Distinct-insert_by x [] a d = (tt, tt)
  Distinct-insert_by x (y ∷ ys) a d = elim (Bool-cases (le x y)) [
    | inl t ↦ rw t (a, d)
    | inr f ↦ rw f (
      All-insert_by le (λ z. key z ≢ key y) x ys (λ q. a.0 (sym q)) d.0,
      Distinct-insert_by x ys a.1 d.1,
    )
  ]

  Distinct-sort_by : (xs : List A) → Distinct key xs → Distinct key (sort_by le xs)
  unfolding sort_by
  Distinct-sort_by [] d = tt
  Distinct-sort_by (x ∷ xs) d =
      Distinct-insert_by x (sort_by le xs) (All-sort_by le (λ y. key y ≢ key x) xs d.0)
        (Distinct-sort_by xs d.1)

  Distinct-select : (p : A → Bool) (xs : List A) → Distinct key xs → Distinct key (select p xs)
  unfolding select
  Distinct-select p [] d = tt
  Distinct-select p (x ∷ xs) d = elim (Bool-cases (p x)) [
    | inl t ↦ rw t (All-select (λ y. key y ≢ key x) p xs d.0, Distinct-select p xs d.1)
    | inr f ↦ rw f (Distinct-select p xs d.1)
  ]

  -- Rows on the two sides of a cut have different keys.
  apart :
      (xs ys : List A) (x y : A) → Distinct key (xs ++ ys) → Memᴰ x xs → Memᴰ y ys → key y ≢ key x
  apart [] ys x y d m n = elim m [ ]
  apart (z ∷ xs) ys x y d (Memᴰ.head q) n =
      subst (λ v. key y ≢ key v) (sym q)
        (All-mem (λ v. key v ≢ key z) (xs ++ ys) y d.0 (Memᴰ.append_right xs n))
  apart (z ∷ xs) ys x y d (Memᴰ.tail m) n = apart xs ys x y d.1 m n

  same_row :
      (xs : List A) (x y : A) → Distinct key xs → Memᴰ x xs → Memᴰ y xs → key x ≡ key y → x ≡ y
  same_row xs x y d m n q =
      some-injective (
        sym (find-mem key x xs d m) ∙ ap (λ j. find (λ z. key z == j) xs) q ∙ find-mem key y xs d n)

-- The deletion of the first k rows, in an order, of those that pass a test.
module _ {ℓ κ} {A : Type ℓ} {K : Type κ} ⦃e : Eq K⦄ (key : A → K) (le : A → A → Bool) (p : A → Bool)
    (k : ℕ) (xs : List A) where
  abbrev pub ordered : List A
  ordered = sort_by le (select p xs)

  abbrev pub removed : List A
  removed = take k (sort_by le (select p xs))

  abbrev pub goes : A → Bool
  goes x = any_of (map key (take k (sort_by le (select p xs)))) (key x)

  abbrev pub kept : List A
  kept = select (λ x. not (any_of (map key (take k (sort_by le (select p xs)))) (key x))) xs

  removed-ordered : (x : A) → Memᴰ x removed → Memᴰ x ordered
  removed-ordered x m =
      subst (Memᴰ x) (take-append-drop k ordered) (Memᴰ.append_left (drop k ordered) m)

  goes-removed : (x : A) → goes x ≡ true → (y : A) × Memᴰ y removed × (key y ≡ key x)
  goes-removed x t = Memᴰ.of_map key removed (any_of-mem (map key removed) (key x) t)

  removed-goes : (x : A) → Memᴰ x removed → goes x ≡ true
  removed-goes x m = mem-any_of (map key removed) (key x) (Memᴰ.map key m)

  cut-Distinct : Distinct key xs → Distinct key (removed ++ drop k ordered)
  cut-Distinct d =
      subst (Distinct key) (sym (take-append-drop k ordered))
        (Distinct-sort_by key le (select p xs) (Distinct-select key le p xs d))

  length-removed : length removed ≡ min k (affected p xs)
  length-removed =
      length-take k ordered ∙ ap (min k) (length-sort_by le (select p xs) ∙ length-select p xs)

  rest-stays : Distinct key xs → (x : A) → Memᴰ x (drop k ordered) → goes x ≡ false
  rest-stays d x m = elim (Bool-cases (goes x)) [
    | inr f ↦ f
    | inl t ↦
        let (y, n, q) = goes-removed x t in
        let apart_rows = apart key le removed (drop k ordered) y x (cut-Distinct d) n m in
        absurd (apart_rows (sym q))
  ]

  -- As many rows of the kind go as there are, up to k.
  affected-goes : Distinct key xs → affected goes (select p xs) ≡ min k (affected p xs)
  affected-goes d =
      sym (affected-sort_by le goes (select p xs))
      ∙ ap (affected goes) (sym (take-append-drop k ordered))
      ∙ affected-append goes removed (drop k ordered)
      ∙ ap₂ (◌+◌) (affected_all goes removed removed-goes)
          (affected_none goes (drop k ordered) (rest-stays d))
      ∙ omega (arith, length-removed)

  -- What is left of the kind.
  pub affected-kept : Distinct key xs → affected p kept ≡ affected p xs - k
  affected-kept d = omega (arith, affected-select-not p goes xs, affected-goes d)

  goes-p : Distinct key xs → (x : A) → Memᴰ x xs → goes x ≡ true → p x ≡ true
  goes-p d x m t =
      let (y, n, q) = goes-removed x t in
      let (o, u) = mem-select y p xs (mem-sort_by le y (select p xs) (removed-ordered y n)) in
      ap p (same_row key le xs x y d m o (sym q)) ∙ u

  -- The rows of other kinds stay.
  pub other-kept : Distinct key xs → (x : A) → Memᴰ x xs → p x ≡ false → Memᴰ x kept
  other-kept d x m f = elim (Bool-cases (goes x)) [
    | inl t ↦ absurd (cc (f, goes-p d x m t))
    | inr u ↦ select-mem x (λ y. not (goes y)) xs m (ap not u)
  ]

  gone-removed : Distinct key xs → (x : A) → Memᴰ x xs → ¬ Memᴰ x kept → Memᴰ x removed
  gone-removed d x m gone = elim (Bool-cases (goes x)) [
    | inr f ↦ absurd (gone (select-mem x (λ z. not (goes z)) xs m (ap not f)))
    | inl t ↦
        let (y, n, q) = goes-removed x t in
        let (o, u) = mem-select y p xs (mem-sort_by le y (select p xs) (removed-ordered y n)) in
        subst (λ z. Memᴰ z removed) (same_row key le xs y x d o m q) n
  ]

  stays-behind : (y : A) → Memᴰ y xs → not (goes y) ≡ true → p y ≡ true → Memᴰ y (drop k ordered)
  stays-behind y n unmarked u =
      let in_order : Memᴰ y ordered = sort_by-mem le y (select p xs) (select-mem y p xs n u) in
      elim (Memᴰ.append_cases removed
        (subst (Memᴰ y) (sym (take-append-drop k ordered)) in_order)) [
          | inl r ↦ absurd (cc (unmarked, removed-goes y r))
          | inr b ↦ b
        ]

  -- A row that goes stands before one of the kind that stays.
  pub removed-le-kept :
      IsSorted le ordered
      → Distinct key xs
      → (x y : A) → Memᴰ x xs
      → ¬ Memᴰ x kept
      → Memᴰ y kept
      → p y ≡ true
      → le x y ≡ true
  removed-le-kept s d x y m gone stays u =
      let (n, unmarked) = mem-select y (λ z. not (goes z)) xs stays in
      let behind : Memᴰ y (drop k ordered) = stays-behind y n unmarked u in
      take-drop-le le k ordered x y s (gone-removed d x m gone) behind

  -- How many rows go.
  pub affected-all_goes : Distinct key xs → affected goes xs ≡ min k (affected p xs)
  affected-all_goes d = affected-select_all goes p xs (goes-p d) ∙ affected-goes d
