-- ===== src/Table/Keys.antt =====
-- Primary keys: the rows of a table have distinct keys, and a row is found by its key.
use mathlib.Core.List.{Memᴰ}
use mathlib.Core.Option.{Option, none, some}
use jackrabbit.Base.{
  ℕ, ◌&&◌, ◌≡◌, ◌≢◌, refl, sym, ap, ◌∙◌, Bool, true, List, [], ◌∷◌, ◌++◌, All, Eq, ◌==◌, subst,
  if◌then◌else◌, arith, Bool-cases, inl, inr,
}
use jackrabbit.Table.Rows.{find, select, update, affected}

module _ {ℓ κ} {A : Type ℓ} {K : Type κ} (key : A → K) where
  abbrev pub Distinct : List A → Type (ℓ ⊔ κ)
  Distinct [] = Unit
  Distinct (x ∷ xs) = All (λ y. key y ≢ key x) xs × Distinct xs

module _ {ℓ κ} {A : Type ℓ} {K : Type κ} (key : A → K) where
  All-key_update :
      (k : K) (p : A → Bool) (f : A → A) (xs : List A)
      → ((x : A) → key (f x) ≡ key x)
      → All (λ y. key y ≢ k) xs
      → All (λ y. key y ≢ k) (update p f xs)
  unfolding update
  All-key_update k p f [] h a = a
  All-key_update k p f (x ∷ xs) h a = elim (Bool-cases (p x)) [
    | inl t ↦ rw t ((λ e. a.0 (sym (h x) ∙ e)), All-key_update k p f xs h a.1)
    | inr t ↦ rw t (a.0, All-key_update k p f xs h a.1)
  ]

  -- An UPDATE that leaves the key alone.
  pub Distinct-update :
      (p : A → Bool) (f : A → A) (xs : List A)
      → ((x : A) → key (f x) ≡ key x)
      → Distinct key xs
      → Distinct key (update p f xs)
  unfolding update
  Distinct-update p f [] h d = d
  Distinct-update p f (x ∷ xs) h d = elim (Bool-cases (p x)) [
    | inl t ↦ rw t (rw (h x) (All-key_update (key x) p f xs h d.0), Distinct-update p f xs h d.1)
    | inr t ↦ rw t (All-key_update (key x) p f xs h d.0, Distinct-update p f xs h d.1)
  ]

  All-snoc :
      (k : K) (z : A) (xs : List A)
      → key z ≢ k
      → All (λ y. key y ≢ k) xs
      → All (λ y. key y ≢ k) (xs ++ z ∷ [])
  All-snoc k z [] n a = (n, tt)
  All-snoc k z (x ∷ xs) n a = (a.0, All-snoc k z xs n a.1)

  mem-All : {k : K} {y : A} (xs : List A) → All (λ y. key y ≢ k) xs → Memᴰ y xs → key y ≢ k
  mem-All [] a m = elim m [ ]
  mem-All (x ∷ xs) a (Memᴰ.head e) = λ q. a.0 (sym (ap key e) ∙ q)
  mem-All (x ∷ xs) a (Memᴰ.tail m) = mem-All xs a.1 m

module _ {ℓ κ} {A : Type ℓ} {K : Type κ} ⦃e : Eq K⦄ (key : A → K) where
  -- An INSERT of a key that no row has.
  pub Distinct-snoc :
      (z : A) (xs : List A)
      → affected (λ y. key y == key z) xs ≡ 0
      → Distinct key xs
      → Distinct key (xs ++ z ∷ [])
  unfolding affected
  Distinct-snoc z [] h d = (tt, tt)
  Distinct-snoc z (x ∷ xs) h d = elim (Bool-cases (key x == key z)) [
    | inl t ↦ absurd (omega (arith, rw t at h))
    | inr t ↦ (
      All-snoc key (key x) z xs (λ q. cc (t, (e.same_iff (key x) (key z)).1 (sym q))) d.0,
      Distinct-snoc z xs (rw t at h) d.1,
    )
  ]

  -- The row of a key is the one that is found.
  pub find-mem :
      (x : A) (xs : List A) → Distinct key xs → Memᴰ x xs → find (λ y. key y == key x) xs ≡ some x
  unfolding find
  find-mem x [] d m = elim m [ ]
  find-mem x (y ∷ ys) d (Memᴰ.head q) = rw (q, (e.same_iff (key y) (key y)).1 refl) refl
  find-mem x (y ∷ ys) d (Memᴰ.tail m) = elim (Bool-cases (key y == key x)) [
    | inl t ↦ absurd (mem-All key ys d.0 m (sym ((e.same_iff (key y) (key x)).0 t)))
    | inr t ↦ rw t (find-mem x ys d.1 m)
  ]

module _ {ℓ} {A : Type ℓ} where
  pub mem-select :
      (x : A) (p : A → Bool) (xs : List A) → Memᴰ x (select p xs) → Memᴰ x xs × (p x ≡ true)
  unfolding select
  mem-select x p [] m = elim m [ ]
  mem-select x p (y ∷ ys) m = elim (Bool-cases (p y)) [
    | inl t ↦ kept (mem-select x p ys) t (rw t at m)
    | inr t ↦ let r = mem-select x p ys (rw t at m) in (Memᴰ.tail r.0, r.1)
  ]
    where
      kept :
          (Memᴰ x (select p ys) → Memᴰ x ys × (p x ≡ true))
          → p y ≡ true
          → Memᴰ x (y ∷ select p ys)
          → Memᴰ x (y ∷ ys) × (p x ≡ true)
      kept ih t (Memᴰ.head q) = (Memᴰ.head q, ap p q ∙ t)
      kept ih t (Memᴰ.tail n) = let r = ih n in (Memᴰ.tail r.0, r.1)

  pub select-mem :
      (x : A) (p : A → Bool) (xs : List A) → Memᴰ x xs → p x ≡ true → Memᴰ x (select p xs)
  unfolding select
  select-mem x p [] m t = m
  select-mem x p (y ∷ ys) (Memᴰ.head q) t = rw (sym (ap p q) ∙ t) (Memᴰ.head q)
  select-mem x p (y ∷ ys) (Memᴰ.tail m) t = elim (Bool-cases (p y)) [
    | inl s ↦ rw s (Memᴰ.tail (select-mem x p ys m t))
    | inr s ↦ rw s (select-mem x p ys m t)
  ]

-- How many rows of a key pass a test, when at most one row has the key.
abbrev pub hits {ℓ} : {A : Type ℓ} → (A → Bool) → Option A → ℕ
hits q none = 0
hits q (some x) = if q x then 1 else 0

module _ {ℓ κ} {A : Type ℓ} {K : Type κ} ⦃e : Eq K⦄ (key : A → K) (k : K) (q : A → Bool) where
  affected_absent :
      (xs : List A) → All (λ y. key y ≢ k) xs → affected (λ y. key y == k && q y) xs ≡ 0
  unfolding affected
  affected_absent [] a = refl
  affected_absent (x ∷ xs) a = elim (Bool-cases (key x == k)) [
    | inl t ↦ absurd (a.0 ((e.same_iff (key x) k).0 t))
    | inr t ↦ rw t (affected_absent xs a.1)
  ]

  pub affected-key :
      (xs : List A)
      → Distinct key xs
      → affected (λ y. key y == k && q y) xs ≡ hits q (find (λ y. key y == k) xs)
  unfolding affected find
  affected-key [] d = refl
  affected-key (x ∷ xs) d = elim (Bool-cases (key x == k)) [
    | inl t ↦ rw t (
        ground (
          arith,
          affected_absent xs
              (subst (λ j. All (λ y. key y ≢ j) xs) ((e.same_iff (key x) k).0 t) d.0),
        ))
    | inr t ↦ rw t (affected-key xs d.1)
  ]

module _ {ℓ} {A : Type ℓ} (p : A → Bool) where
  -- A statement touches a row exactly when some row passes its test.
  pub affected-mem : (xs : List A) → affected p xs ≢ 0 → (x : A) × Memᴰ x xs × (p x ≡ true)
  unfolding affected
  affected-mem [] h = absurd (h refl)
  affected-mem (x ∷ xs) h = elim (Bool-cases (p x)) [
    | inl t ↦ (x, Memᴰ.head refl, t)
    | inr f ↦ let (y, m, t) = affected-mem xs (λ e. h (rw f e)) in (y, Memᴰ.tail m, t)
  ]

  pub mem-affected : (x : A) (xs : List A) → Memᴰ x xs → p x ≡ true → affected p xs ≢ 0
  unfolding affected
  mem-affected x [] m t h = elim m [ ]
  mem-affected x (y ∷ ys) (Memᴰ.head e) t h = omega (arith, rw (← e, t) at h)
  mem-affected x (y ∷ ys) (Memᴰ.tail m) t h = elim (Bool-cases (p y)) [
    | inl s ↦ omega (arith, rw s at h)
    | inr f ↦ mem-affected x ys m t (rw f at h)
  ]
