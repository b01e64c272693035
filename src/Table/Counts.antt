-- ===== src/Table/Counts.antt =====
-- How many rows pass a test after sorting, selecting and deleting, and where they stand in an order.
use mathlib.Core.List.{Memᴰ}
use jackrabbit.Base.{
  ℕ, zero, suc, ◌+◌, ◌≡◌, refl, sym, ◌∙◌, subst, Bool, true, false, not, List, [], ◌∷◌, ◌++◌, take,
  drop, length, All-mem, arith,
}
use jackrabbit.Table.Rows.{select, affected}
use jackrabbit.Table.Sorting.{sort_by, insert_by, IsSorted}

module _ {ℓ} {A : Type ℓ} where
  affected-insert_by :
      (le : A → A → Bool) (p : A → Bool) (x : A) (ys : List A)
      → affected p (insert_by le x ys) ≡ affected p (x ∷ ys)
  unfolding affected insert_by
  affected-insert_by le p x [] = refl
  affected-insert_by le p x (y ∷ ys) = ground (arith, affected-insert_by le p x ys)

  -- Sorting changes no count.
  pub affected-sort_by :
      (le : A → A → Bool) (p : A → Bool) (xs : List A) → affected p (sort_by le xs) ≡ affected p xs
  unfolding affected sort_by
  affected-sort_by le p [] = refl
  affected-sort_by le p (x ∷ xs) =
      affected-insert_by le p x (sort_by le xs) ∙ ground (arith, affected-sort_by le p xs)

  pub affected_all :
      (p : A → Bool) (xs : List A) → ((x : A) → Memᴰ x xs → p x ≡ true) → affected p xs ≡ length xs
  unfolding affected
  affected_all p [] h = refl
  affected_all p (x ∷ xs) h =
      ground (arith, h x (Memᴰ.head refl), affected_all p xs (λ y m. h y (Memᴰ.tail m)))

  pub length-sort_by : (le : A → A → Bool) (xs : List A) → length (sort_by le xs) ≡ length xs
  length-sort_by le xs =
      sym (affected_all (λ x. true) (sort_by le xs) (λ x m. refl))
      ∙ affected-sort_by le (λ x. true) xs
      ∙ affected_all (λ x. true) xs (λ x m. refl)

  pub affected-append :
      (p : A → Bool) (xs ys : List A) → affected p (xs ++ ys) ≡ affected p xs + affected p ys
  unfolding affected
  affected-append p [] ys = omega arith
  affected-append p (x ∷ xs) ys = ground (arith, affected-append p xs ys)

  pub affected_none :
      (p : A → Bool) (xs : List A) → ((x : A) → Memᴰ x xs → p x ≡ false) → affected p xs ≡ 0
  unfolding affected
  affected_none p [] h = refl
  affected_none p (x ∷ xs) h =
      ground (arith, h x (Memᴰ.head refl), affected_none p xs (λ y m. h y (Memᴰ.tail m)))

  -- The rows of a kind that a deletion leaves, and those that it takes.
  pub affected-select-not :
      (p g : A → Bool) (xs : List A)
      → affected p (select (λ x. not (g x)) xs) + affected g (select p xs) ≡ affected p xs
  unfolding affected select
  affected-select-not p g [] = omega arith
  affected-select-not p g (x ∷ xs) = ground (arith, affected-select-not p g xs)

  pub affected-select_all :
      (g p : A → Bool) (xs : List A)
      → ((x : A) → Memᴰ x xs → g x ≡ true → p x ≡ true)
      → affected g xs ≡ affected g (select p xs)
  unfolding affected select
  affected-select_all g p [] h = refl
  affected-select_all g p (x ∷ xs) h =
      ground (arith, h x (Memᴰ.head refl), affected-select_all g p xs (λ y m. h y (Memᴰ.tail m)))

  -- What stands in front of a sorted list is at most what stands behind.
  pub take-drop-le :
      (le : A → A → Bool) (k : ℕ) (xs : List A) (x y : A)
      → IsSorted le xs
      → Memᴰ x (take k xs)
      → Memᴰ y (drop k xs)
      → le x y ≡ true
  take-drop-le le zero xs x y s m n = elim m [ ]
  take-drop-le le (suc k) [] x y s m n = elim m [ ]
  take-drop-le le (suc k) (z ∷ xs) x y s (Memᴰ.head q) n =
      subst (λ v. le v y ≡ true) (sym q) (All-mem (λ v. le z v ≡ true) xs y s.0 (drop-mem k xs n))
    where
      drop-mem : (j : ℕ) (zs : List A) → Memᴰ y (drop j zs) → Memᴰ y zs
      drop-mem zero zs o = o
      drop-mem (suc j) [] o = o
      drop-mem (suc j) (v ∷ zs) o = Memᴰ.tail (drop-mem j zs o)
  take-drop-le le (suc k) (z ∷ xs) x y s (Memᴰ.tail m) n = take-drop-le le k xs x y s.1 m n
