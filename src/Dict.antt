-- ===== src/Dict.antt =====
-- Go's map from strings, as an association list with at most one entry for a key.
use text.Mathlib.TextEquality.{eq_iff}
use jackrabbit.Base.{
  String, string_eq, ◌==◌, ◌≡◌, refl, Option, none, some, List, [], ◌∷◌, if◌then◌else◌, arith, All,
  Bool-cases, inl, inr,
}

module _ {ℓ} {V : Type ℓ} where
  -- The comma-ok read.
  unfoldable pub lookup : String → List (String × V) → Option V
  lookup key [] = none
  lookup key ((other, value) ∷ rest) = if other == key then some value else lookup key rest

  -- Go's delete: a missing key is no error.
  unfoldable pub delete : String → List (String × V) → List (String × V)
  delete key [] = []
  delete key ((other, value) ∷ rest) =
      if other == key then delete key rest else (other, value) ∷ delete key rest

  -- An assignment to an entry.
  unfoldable pub insert : String → V → List (String × V) → List (String × V)
  insert key value [] = (key, value) ∷ []
  insert key value ((other, old) ∷ rest) =
      if other == key then (key, value) ∷ rest else (other, old) ∷ insert key value rest

module _ {ℓ} {V : Type ℓ} where
  pub lookup-delete :
      (k j : String) (m : List (String × V))
      → lookup j (delete k m) ≡ (if k == j then none else lookup j m)
  unfolding lookup delete
  lookup-delete k j [] = ground arith
  lookup-delete k j ((i, w) ∷ m) =
      ground (arith, eq_iff k j, eq_iff i k, eq_iff i j, lookup-delete k j m)

  pub lookup-insert :
      (key asked : String) (value : V) (m : List (String × V))
      → lookup asked (insert key value m) ≡ (if key == asked then some value else lookup asked m)
  unfolding insert lookup
  lookup-insert key asked value [] = refl
  lookup-insert key asked value ((other, old) ∷ rest) = ground (
    arith,
    lookup-insert key asked value rest,
    eq_iff other asked,
    eq_iff other key,
    eq_iff key asked,
  )

  -- A predicate on the entries.
  pub All-insert {κ} :
      (P : String × V → Type κ) (k : String) (v : V) (m : List (String × V))
      → P (k, v)
      → All P m
      → All P (insert k v m)
  unfolding insert
  All-insert P k v [] p a = (p, a)
  All-insert P k v ((j, w) ∷ m) p a = elim (Bool-cases (j == k)) [
    | inl t ↦ rw t (p, a.1)
    | inr t ↦ rw t (a.0, All-insert P k v m p a.1)
  ]

  pub All-delete {κ} :
      (P : String × V → Type κ) (k : String) (m : List (String × V)) → All P m → All P (delete k m)
  unfolding delete
  All-delete P k [] a = a
  All-delete P k ((j, w) ∷ m) a = elim (Bool-cases (j == k)) [
    | inl t ↦ rw t (All-delete P k m a.1)
    | inr t ↦ rw t (a.0, All-delete P k m a.1)
  ]
