-- ===== src/Table/Sorting.antt =====
-- ORDER BY and LIMIT 1: an insertion sort, what it keeps, and that it sorts.
use mathlib.Core.Option.{Option, none, some}
use mathlib.Core.List.{Memᴰ, Perm}
use mathlib.Core.List.Perm
use jackrabbit.Base.{
  List, [], ◌∷◌, Bool, true, false, if◌then◌else◌, ◌≡◌, ◌⊎◌, inl, inr, All, arith, Bool-cases,
}

module _ {ℓ} {A : Type ℓ} (le : A → A → Bool) where
  unfoldable pub insert_by : A → List A → List A
  insert_by x [] = x ∷ []
  insert_by x (y ∷ ys) = if le x y then x ∷ y ∷ ys else y ∷ insert_by x ys

  -- Stable: rows that compare alike keep their order.
  unfoldable pub sort_by : List A → List A
  unfolding insert_by
  sort_by [] = []
  sort_by (x ∷ xs) = insert_by x (sort_by xs)

-- LIMIT 1.
abbrev pub first {ℓ} : {A : Type ℓ} → List A → Option A
first [] = none
first (x ∷ _) = some x

pub first-mem {ℓ} : {A : Type ℓ} (xs : List A) {x : A} → first xs ≡ some x → Memᴰ x xs
first-mem [] h = absurd (ground arith)
first-mem (y ∷ ys) h = Memᴰ.head (ground arith)

pub first-not_none {ℓ} : {A : Type ℓ} (xs : List A) {x : A} → first xs ≡ none → ¬ Memᴰ x xs
first-not_none [] h m = elim m [ ]
first-not_none (y ∷ ys) h m = ground arith

module _ {ℓ} {A : Type ℓ} (le : A → A → Bool) where
  insert_by-perm : (x : A) (ys : List A) → Perm (insert_by le x ys) (x ∷ ys)
  unfolding insert_by
  insert_by-perm x [] = Perm.refl (x ∷ [])
  insert_by-perm x (y ∷ ys) = elim (Bool-cases (le x y)) [
    | inl t ↦ rw t (Perm.refl (x ∷ y ∷ ys))
    | inr t ↦ rw t (Perm.trans (Perm.cons y (insert_by-perm x ys)) (Perm.swap x y ys))
  ]

  -- Sorting keeps the rows.
  pub sort_by-perm : (xs : List A) → Perm (sort_by le xs) xs
  unfolding sort_by
  sort_by-perm [] = Perm.refl []
  sort_by-perm (x ∷ xs) =
      Perm.trans (insert_by-perm x (sort_by le xs)) (Perm.cons x (sort_by-perm xs))

  mem-insert_by : (z x : A) (ys : List A) → Memᴰ z (insert_by le x ys) → (z ≡ x) ⊎ Memᴰ z ys
  unfolding insert_by
  mem-insert_by z x [] (Memᴰ.head e) = inl e
  mem-insert_by z x [] (Memᴰ.tail m) = inr m
  mem-insert_by z x (y ∷ ys) m = elim (Bool-cases (le x y)) [
    | inl t ↦ now (rw t at m)
    | inr t ↦ later (mem-insert_by z x ys) (rw t at m)
  ]
    where
      now : Memᴰ z (x ∷ y ∷ ys) → (z ≡ x) ⊎ Memᴰ z (y ∷ ys)
      now (Memᴰ.head e) = inl e
      now (Memᴰ.tail m) = inr m

      shift : (z ≡ x) ⊎ Memᴰ z ys → (z ≡ x) ⊎ Memᴰ z (y ∷ ys)
      shift (inl e) = inl e
      shift (inr m) = inr (Memᴰ.tail m)

      later :
          (Memᴰ z (insert_by le x ys) → (z ≡ x) ⊎ Memᴰ z ys)
          → Memᴰ z (y ∷ insert_by le x ys)
          → (z ≡ x) ⊎ Memᴰ z (y ∷ ys)
      later ih (Memᴰ.head e) = inr (Memᴰ.head e)
      later ih (Memᴰ.tail m) = shift (ih m)

  pub mem-sort_by : (z : A) (xs : List A) → Memᴰ z (sort_by le xs) → Memᴰ z xs
  unfolding sort_by
  mem-sort_by z [] m = m
  mem-sort_by z (x ∷ xs) m = elim (mem-insert_by z x (sort_by le xs) m) [
    | inl e ↦ Memᴰ.head e
    | inr n ↦ Memᴰ.tail (mem-sort_by z xs n)
  ]

  insert_by-mem : (z x : A) (ys : List A) → (z ≡ x) ⊎ Memᴰ z ys → Memᴰ z (insert_by le x ys)
  unfolding insert_by
  insert_by-mem z x [] (inl e) = Memᴰ.head e
  insert_by-mem z x [] (inr m) = Memᴰ.tail m
  insert_by-mem z x (y ∷ ys) (inl e) = elim (Bool-cases (le x y)) [
    | inl t ↦ rw t (Memᴰ.head e)
    | inr t ↦ rw t (Memᴰ.tail (insert_by-mem z x ys (inl e)))
  ]
  insert_by-mem z x (y ∷ ys) (inr (Memᴰ.head e)) = elim (Bool-cases (le x y)) [
    | inl t ↦ rw t (Memᴰ.tail (Memᴰ.head e))
    | inr t ↦ rw t (Memᴰ.head e)
  ]
  insert_by-mem z x (y ∷ ys) (inr (Memᴰ.tail m)) = elim (Bool-cases (le x y)) [
    | inl t ↦ rw t (Memᴰ.tail (Memᴰ.tail m))
    | inr t ↦ rw t (Memᴰ.tail (insert_by-mem z x ys (inr m)))
  ]

  pub sort_by-mem : (z : A) (xs : List A) → Memᴰ z xs → Memᴰ z (sort_by le xs)
  unfolding sort_by
  sort_by-mem z [] m = m
  sort_by-mem z (x ∷ xs) (Memᴰ.head e) = insert_by-mem z x (sort_by le xs) (inl e)
  sort_by-mem z (x ∷ xs) (Memᴰ.tail m) =
      insert_by-mem z x (sort_by le xs) (inr (sort_by-mem z xs m))

  pub All-insert_by {κ} :
      (P : A → Type κ) (x : A) (ys : List A) → P x → All P ys → All P (insert_by le x ys)
  unfolding insert_by
  All-insert_by P x [] p a = (p, a)
  All-insert_by P x (y ∷ ys) p a = elim (Bool-cases (le x y)) [
    | inl t ↦ rw t (p, a)
    | inr t ↦ rw t (a.0, All-insert_by P x ys p a.1)
  ]

  pub All-sort_by {κ} : (P : A → Type κ) (xs : List A) → All P xs → All P (sort_by le xs)
  unfolding sort_by
  All-sort_by P [] a = a
  All-sort_by P (x ∷ xs) a = All-insert_by P x (sort_by le xs) a.0 (All-sort_by P xs a.1)

-- Every row is at most all rows behind it.
abbrev pub IsSorted {ℓ} : {A : Type ℓ} → (A → A → Bool) → List A → Type ℓ
IsSorted le [] = Unit
IsSorted {A} le (x ∷ xs) = All (λ y. le x y ≡ true) xs × IsSorted le xs

module _ {ℓ} {A : Type ℓ} (le : A → A → Bool) (total : (x y : A) → le x y ≡ false → le y x ≡ true)
    (transitive : (x y z : A) → le x y ≡ true → le y z ≡ true → le x z ≡ true) where
  All-le :
      (x y : A) (zs : List A)
      → le x y ≡ true
      → All (λ z. le y z ≡ true) zs
      → All (λ z. le x z ≡ true) zs
  All-le x y [] h a = a
  All-le x y (z ∷ zs) h a = (transitive x y z h a.0, All-le x y zs h a.1)

  insert_by-IsSorted : (x : A) (ys : List A) → IsSorted le ys → IsSorted le (insert_by le x ys)
  unfolding insert_by
  insert_by-IsSorted x [] s = (tt, tt)
  insert_by-IsSorted x (y ∷ ys) s = elim (Bool-cases (le x y)) [
    | inl t ↦ rw t ((t, All-le x y ys t s.0), s)
    | inr t ↦
        rw t (
          All-insert_by le (λ z. le y z ≡ true) x ys (total x y t) s.0,
          insert_by-IsSorted x ys s.1,
        )
  ]

  pub sort_by-IsSorted : (xs : List A) → IsSorted le (sort_by le xs)
  unfolding sort_by
  sort_by-IsSorted [] = tt
  sort_by-IsSorted (x ∷ xs) = insert_by-IsSorted x (sort_by le xs) (sort_by-IsSorted xs)
