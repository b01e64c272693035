-- ===== src/Table/Ordered.antt =====
-- Rows whose order leaves no choice: a sorted list with the elements of a strictly ordered one is that
-- list. And what a change of the order leaves of a selection.
use mathlib.Core.Logic.{∥∥₁_elim, ∥∥₁_prop}
use mathlib.Core.List.{Perm, Permᴰ, mem-cons_self, perm_middle}
use mathlib.Core.List.Perm
use jackrabbit.Base.{
  Bool, true, false, ◌≡◌, ◌≢◌, refl, sym, ap, subst, ◌∙◌, inl, inr, List, [], ◌∷◌, ◌++◌, map, Memᴰ,
  All, Bool-cases,
}
use jackrabbit.Table.Rows.{select}
use jackrabbit.Table.Sorting.{IsSorted}

-- No row is at most a row before it.
abbrev pub IsStrict {ℓ} : {A : Type ℓ} → (A → A → Bool) → List A → Type ℓ
IsStrict le [] = Unit
IsStrict {A} le (x ∷ xs) = All (λ y. le y x ≡ false) xs × IsStrict le xs

pub All-mem {ℓ κ} : {A : Type ℓ} (P : A → Type κ) {x : A} (xs : List A) → All P xs → Memᴰ x xs → P x
All-mem P [] a m = elim m [ ]
All-mem P (y ∷ xs) a (Memᴰ.head q) = subst P (sym q) a.0
All-mem P (y ∷ xs) a (Memᴰ.tail m) = All-mem P xs a.1 m

true-ne-false : true ≢ false
true-ne-false h = cc

module _ {ℓ} {A : Type ℓ} (set : IsSet A) (le : A → A → Bool) where
  lists-IsSet : IsSet (List A)
  lists-IsSet = hlevel set

  same_head :
      (x y : A) (xs ys : List A)
      → IsSorted le (x ∷ xs)
      → IsStrict le (y ∷ ys)
      → Memᴰ x (y ∷ ys)
      → Memᴰ y (x ∷ xs)
      → x ≡ y
  same_head x y xs ys s t (Memᴰ.head q) n = q
  same_head x y xs ys s t (Memᴰ.tail m) (Memᴰ.head q) = sym q
  same_head x y xs ys s t (Memᴰ.tail m) (Memᴰ.tail n) = absurd (
      true-ne-false
        (sym (All-mem (λ z. le x z ≡ true) xs s.0 n) ∙ All-mem (λ z. le z y ≡ false) ys t.0 m))

  pub sorted_unique : (xs ys : List A) → IsSorted le xs → IsStrict le ys → Perm xs ys → xs ≡ ys
  sorted_unique [] ys s t p = sym (Perm.eq-nil (Perm.symm p))
  sorted_unique (x ∷ xs) [] s t p = Perm.eq-nil p
  sorted_unique (x ∷ xs) (y ∷ ys) s t p =
      ∥∥₁_elim ((Perm.mem_iff p).0 mem-cons_self) (lists-IsSet _ _) (λ m.
        ∥∥₁_elim ((Perm.mem_iff p).1 mem-cons_self) (lists-IsSet _ _) (λ n.
          let q = same_head x y xs ys s t m n in
          let rest = Perm.cons_inv (subst (λ z. Perm (z ∷ xs) (y ∷ ys)) q p) in
          ap (λ z. z ∷ xs) q ∙ ap (◌∷◌ y) (sorted_unique xs ys s.1 t.1 rest)))

pub IsSorted-map {ℓ κ} :
    {A : Type ℓ} {B : Type κ} (le : A → A → Bool) (le' : B → B → Bool) (f : A → B)
    → ((x y : A) → le x y ≡ le' (f x) (f y))
    → (xs : List A) → IsSorted le xs
    → IsSorted le' (map f xs)
IsSorted-map le le' f h [] s = tt
IsSorted-map le le' f h (x ∷ xs) s = (all xs s.0, IsSorted-map le le' f h xs s.1)
  where
    all : (ys : List _) → All (λ y. le x y ≡ true) ys → All (λ y. le' (f x) y ≡ true) (map f ys)
    all [] a = tt
    all (y ∷ ys) a = (sym (h x y) ∙ a.0, all ys a.1)

pub IsStrict-map {ℓ κ} :
    {A : Type ℓ} {B : Type κ} (le : A → A → Bool) (le' : B → B → Bool) (f : A → B)
    → ((x y : A) → le x y ≡ le' (f x) (f y))
    → (xs : List A) → IsStrict le xs
    → IsStrict le' (map f xs)
IsStrict-map le le' f h [] s = tt
IsStrict-map le le' f h (x ∷ xs) s = (all xs s.0, IsStrict-map le le' f h xs s.1)
  where
    all : (ys : List _) → All (λ y. le y x ≡ false) ys → All (λ y. le' y (f x) ≡ false) (map f ys)
    all [] a = tt
    all (y ∷ ys) a = (sym (h y x) ∙ a.0, all ys a.1)

-- A selection among images.
pub select-map {ℓ κ} :
    {A : Type ℓ} {B : Type κ} (p : B → Bool) (q : A → Bool) (f : A → B) (xs : List A)
    → All (λ x. p (f x) ≡ q x) xs
    → select p (map f xs) ≡ map f (select q xs)
unfolding select
select-map p q f [] a = refl
select-map p q f (x ∷ xs) a = elim (Bool-cases (q x)) [
  | inl t ↦ rw (a.0, t) (ap (◌∷◌ (f x)) (select-map p q f xs a.1))
  | inr g ↦ rw (a.0, g) (select-map p q f xs a.1)
]

module _ {ℓ} {A : Type ℓ} (p : A → Bool) where
  pub select-append : (xs ys : List A) → select p (xs ++ ys) ≡ select p xs ++ select p ys
  unfolding select
  select-append [] ys = refl
  select-append (x ∷ xs) ys = elim (Bool-cases (p x)) [
    | inl t ↦ rw t (ap (◌∷◌ x) (select-append xs ys))
    | inr f ↦ rw f (select-append xs ys)
  ]

  kept :
      (x : A) (xs ys : List A)
      → Perm (select p xs) (select p ys)
      → Perm (select p (x ∷ xs)) (select p (x ∷ ys))
  unfolding select
  kept x xs ys h = elim (Bool-cases (p x)) [ inl t ↦ rw t (Perm.cons x h) | inr f ↦ rw f h ]

  swapped : (x y : A) (xs : List A) → Perm (select p (x ∷ y ∷ xs)) (select p (y ∷ x ∷ xs))
  unfolding select
  swapped x y xs = elim (Bool-cases (p x)) [
    | inl t ↦ elim (Bool-cases (p y)) [
      | inl u ↦ rw (t, u) (Perm.swap y x (select p xs))
      | inr g ↦ rw (t, g) (Perm.refl _)
    ]
    | inr f ↦ rw f (Perm.refl _)
  ]

  selectᴰ : {xs ys : List A} → Permᴰ xs ys → Perm (select p xs) (select p ys)
  selectᴰ Permᴰ.nil = Perm.refl _
  selectᴰ (Permᴰ.cons {a = a} {l₁ = xs} {l₂ = ys} q d) =
      subst (λ z. Perm (select p (a ∷ xs)) (select p (z ∷ ys))) q (kept a xs ys (selectᴰ d))
  selectᴰ (Permᴰ.swap {a = a} {b = b} {a' = c} {b' = d} {l = xs} q r) =
      subst (λ z. Perm (select p (a ∷ b ∷ xs)) (select p (z ∷ d ∷ xs))) r
        (subst (λ z. Perm (select p (a ∷ b ∷ xs)) (select p (b ∷ z ∷ xs))) q (swapped a b xs))
  selectᴰ (Permᴰ.trans d e) = Perm.trans (selectᴰ d) (selectᴰ e)

  pub Perm-select : {xs ys : List A} → Perm xs ys → Perm (select p xs) (select p ys)
  Perm-select h = ∥∥₁_elim h ∥∥₁_prop selectᴰ

-- The lists of a list, one after another.
unfoldable pub concat {ℓ} : {A : Type ℓ} → List (List A) → List A
concat [] = []
concat (xs ∷ xss) = xs ++ concat xss

module _ {ℓ} {A : Type ℓ} where
  append-swap : (xs ys zs : List A) → Perm (xs ++ (ys ++ zs)) (ys ++ (xs ++ zs))
  append-swap [] ys zs = Perm.refl _
  append-swap (x ∷ xs) ys zs =
      Perm.trans (Perm.cons x (append-swap xs ys zs)) (Perm.symm (perm_middle ys (xs ++ zs)))

  concatᴰ : {xss yss : List (List A)} → Permᴰ xss yss → Perm (concat xss) (concat yss)
  unfolding concat
  concatᴰ Permᴰ.nil = Perm.refl _
  concatᴰ (Permᴰ.cons {a = xs} {l₁ = xss} {l₂ = yss} q d) =
      subst (λ z. Perm (xs ++ concat xss) (z ++ concat yss)) q (Perm.append_left xs (concatᴰ d))
  concatᴰ (Permᴰ.swap {a = xs} {b = ys} {a' = us} {b' = vs} {l = xss} q r) =
      subst (λ z. Perm (xs ++ (ys ++ concat xss)) (z ++ (vs ++ concat xss))) r
        (subst (λ z. Perm (xs ++ (ys ++ concat xss)) (ys ++ (z ++ concat xss))) q
          (append-swap xs ys (concat xss)))
  concatᴰ (Permᴰ.trans d e) = Perm.trans (concatᴰ d) (concatᴰ e)

  pub concat-Perm : {xss yss : List (List A)} → Perm xss yss → Perm (concat xss) (concat yss)
  concat-Perm h = ∥∥₁_elim h ∥∥₁_prop concatᴰ
