-- ===== src/Table/Rows.antt =====
-- WHERE clauses as Boolean tests of a row: reading, updating and counting the rows that pass one.
use mathlib.Core.Option
use jackrabbit.Base.{
  ℕ, suc, ◌≡◌, refl, ◌⊎◌, inl, inr, Bool, true, false, Option, none, some, List, [], ◌∷◌, ◌++◌,
  arith, length, All, subst, Bool-cases, if◌then◌else◌,
}

module _ {ℓ} {A : Type ℓ} where
  -- SELECT … WHERE, in table order.
  unfoldable pub select : (A → Bool) → List A → List A
  select p [] = []
  select p (x ∷ xs) = if p x then x ∷ select p xs else select p xs

  -- The first row that passes.
  unfoldable pub find : (A → Bool) → List A → Option A
  find p [] = none
  find p (x ∷ xs) = if p x then some x else find p xs

  -- UPDATE … SET … WHERE.
  unfoldable pub update : (A → Bool) → (A → A) → List A → List A
  update p f [] = []
  update p f (x ∷ xs) = (if p x then f x else x) ∷ update p f xs

  -- The rows that a statement touches.
  unfoldable pub affected : (A → Bool) → List A → ℕ
  affected p [] = 0
  affected p (x ∷ xs) = if p x then suc (affected p xs) else affected p xs

module _ {ℓ} {A : Type ℓ} where
  pub length-select : (p : A → Bool) (xs : List A) → length (select p xs) ≡ affected p xs
  unfolding select affected
  length-select p [] = refl
  length-select p (x ∷ xs) = ground (arith, length-select p xs)

  pub update_none :
      (p : A → Bool) (f : A → A) (xs : List A) → affected p xs ≡ 0 → update p f xs ≡ xs
  unfolding update affected
  update_none p f [] h = refl
  update_none p f (x ∷ xs) h = ground (arith, update_none p f xs)

  pub affected-find : (p : A → Bool) (xs : List A) → affected p xs ≡ 0 → find p xs ≡ none
  unfolding find affected
  affected-find p [] h = refl
  affected-find p (x ∷ xs) h = ground (arith, affected-find p xs)

  pub find-affected : (p : A → Bool) (xs : List A) → find p xs ≡ none → affected p xs ≡ 0
  unfolding find affected
  find-affected p [] h = refl
  find-affected p (x ∷ xs) h = ground (arith, find-affected p xs)

  -- A row that was found passes the test.
  pub find_passes : (p : A → Bool) (xs : List A) (x : A) → find p xs ≡ some x → p x ≡ true
  unfolding find
  find_passes p [] x h = ground arith
  find_passes p (y ∷ xs) x h = ground (arith, find_passes p xs x)

  -- An update that does not touch what another test reads.
  pub find-update :
      (q p : A → Bool) (f : A → A) (xs : List A)
      → ((x : A) → q (f x) ≡ q x)
      → find q (update p f xs) ≡ Option.map (λ x. if p x then f x else x) (find q xs)
  unfolding find update
  find-update q p f [] h = refl
  find-update q p f (x ∷ xs) h = ground (arith, h x, find-update q p f xs h)

  pub affected-update :
      (q p : A → Bool) (f : A → A) (xs : List A)
      → ((x : A) → q (f x) ≡ q x)
      → affected q (update p f xs) ≡ affected q xs
  unfolding affected update
  affected-update q p f [] h = refl
  affected-update q p f (x ∷ xs) h = ground (arith, h x, affected-update q p f xs h)

  -- After an update whose new rows fail its own test, a second one finds nothing.
  pub affected-update_done :
      (p : A → Bool) (f : A → A) (xs : List A)
      → ((x : A) → p x ≡ true → p (f x) ≡ false)
      → affected p (update p f xs) ≡ 0
  unfolding affected update
  affected-update_done p f [] h = refl
  affected-update_done p f (x ∷ xs) h = ground (arith, h x, affected-update_done p f xs h)

  pub All-update {κ} :
      (P : A → Type κ) (p : A → Bool) (f : A → A) (xs : List A)
      → ((x : A) → p x ≡ true → P x → P (f x))
      → All P xs
      → All P (update p f xs)
  unfolding update
  All-update P p f [] h a = a
  All-update P p f (x ∷ xs) h a = (head (Bool-cases (p x)), All-update P p f xs h a.1)
    where
      head : (p x ≡ true) ⊎ (p x ≡ false) → P (if p x then f x else x)
      head (inl t) = rw t (h x t a.0)
      head (inr t) = rw t a.0

  pub All-select {κ} :
      (P : A → Type κ) (p : A → Bool) (xs : List A) → All P xs → All P (select p xs)
  unfolding select
  All-select P p [] a = a
  All-select P p (x ∷ xs) a = ground (arith, All-select P p xs a.1)

  pub All-find {κ} :
      (P : A → Type κ) (p : A → Bool) (xs : List A) (x : A) → All P xs → find p xs ≡ some x → P x
  unfolding find
  All-find P p [] x a h = absurd (ground arith)
  All-find P p (y ∷ xs) x a h = elim (Bool-cases (p y)) [
    | inl t ↦ subst P (ground arith) a.0
    | inr t ↦ All-find P p xs x a.1 (rw t at h)
  ]

  -- The row that an INSERT puts last.
  pub find-snoc :
      (p : A → Bool) (xs : List A) (z : A)
      → affected p xs ≡ 0
      → p z ≡ true
      → find p (xs ++ z ∷ []) ≡ some z
  unfolding find affected
  find-snoc p [] z h t = rw t refl
  find-snoc p (x ∷ xs) z h t = ground (arith, find-snoc p xs z)

  pub find-snoc_other :
      (p : A → Bool) (xs : List A) (z : A) → p z ≡ false → find p (xs ++ z ∷ []) ≡ find p xs
  unfolding find
  find-snoc_other p [] z f = rw f refl
  find-snoc_other p (x ∷ xs) z f = ground (arith, find-snoc_other p xs z f)

  -- An update whose own rows another test does not tell apart from the old ones.
  pub affected-update_same :
      (q p : A → Bool) (f : A → A) (xs : List A)
      → ((x : A) → p x ≡ true → q (f x) ≡ q x)
      → affected q (update p f xs) ≡ affected q xs
  unfolding affected update
  affected-update_same q p f [] h = refl
  affected-update_same q p f (x ∷ xs) h = ground (arith, h x, affected-update_same q p f xs h)
