-- ===== src/Client/Lines/Splitting.antt =====
-- splitLines of client/internal/runner/executor.go: the lines give the bytes back.
use mathlib.Core.List.{append_assoc, append-nil}
use jackrabbit.Base.{
  ℕ, nat_eq, ◌==◌, if◌then◌else◌, ◌≡◌, refl, sym, ap, ◌∙◌, true, false, List, [], ◌∷◌, ◌++◌, All,
  arith, Bool-cases, nat_beq_iff, inl, inr,
}
use jackrabbit.Client.Lines.{Bytes, split_lines, lines_from, ends_with_newline}

-- No byte is a newline.
abbrev pub IsOneLine : Bytes → Type 0
IsOneLine = All (λ b. (b == b'\n') ≡ false)

-- The lines, each with a newline behind it.
unfoldable pub unlines : List Bytes → Bytes
unlines [] = []
unlines (line ∷ lines) = line ++ b'\n' ∷ unlines lines

-- The bytes, with a newline behind them unless they are empty or have one there.
unfoldable pub terminated : Bytes → Bytes
terminated [] = []
terminated (b ∷ bytes) =
    if ends_with_newline (b ∷ bytes) then b ∷ bytes else b ∷ bytes ++ b'\n' ∷ []

snoc-IsOneLine :
    (seg : Bytes) (b : ℕ) → IsOneLine seg → (b == b'\n') ≡ false → IsOneLine (seg ++ b ∷ [])
snoc-IsOneLine [] b h f = (f, tt)
snoc-IsOneLine (c ∷ seg) b h f = (h.0, snoc-IsOneLine seg b h.1 f)

pub one_line_ends :
    (c : ℕ) (seg : Bytes) → IsOneLine (c ∷ seg) → ends_with_newline (c ∷ seg) ≡ false
unfolding ends_with_newline
one_line_ends c [] h = h.0
one_line_ends c (d ∷ seg) h = one_line_ends d seg h.1

terminated_cons : (x z : ℕ) (zs : Bytes) → terminated (x ∷ z ∷ zs) ≡ x ∷ terminated (z ∷ zs)
unfolding terminated ends_with_newline
terminated_cons x z zs = elim (Bool-cases (ends_with_newline (z ∷ zs))) [
  | inl t ↦ rw t refl
  | inr f ↦ rw f refl
]

terminated-append : (xs ys : Bytes) → terminated (xs ++ b'\n' ∷ ys) ≡ xs ++ b'\n' ∷ terminated ys
unfolding terminated ends_with_newline
terminated-append [] [] = refl
terminated-append [] (y ∷ ys) = terminated_cons b'\n' y ys
terminated-append (x ∷ []) ys = terminated_cons x b'\n' ys ∙ ap (◌∷◌ x) (terminated-append [] ys)
terminated-append (x ∷ z ∷ xs) ys =
    terminated_cons x z (xs ++ b'\n' ∷ ys) ∙ ap (◌∷◌ x) (terminated-append (z ∷ xs) ys)

unlines-lines_from :
    (seg rest : Bytes) → IsOneLine seg → unlines (lines_from seg rest) ≡ terminated (seg ++ rest)
unfolding unlines lines_from
unlines-lines_from [] [] h = unfold terminated in refl
unlines-lines_from (c ∷ seg) [] h =
    unfold terminated in rw (append-nil seg, one_line_ends c seg h) refl
unlines-lines_from seg (b ∷ rest) h = elim (Bool-cases (b == b'\n')) [
  | inl t ↦ rw t (
      ap (λ l. seg ++ b'\n' ∷ l) (unlines-lines_from [] rest tt)
      ∙ sym (terminated-append seg rest)
      ∙ ap (λ x. terminated (seg ++ x ∷ rest)) (sym ((nat_beq_iff b b'\n').0 t)))
  | inr f ↦ rw f (
      unlines-lines_from (seg ++ b ∷ []) rest (snoc-IsOneLine seg b h f)
      ∙ ap terminated (append_assoc seg (b ∷ []) rest))
]

lines_from-IsOneLine : (seg rest : Bytes) → IsOneLine seg → All IsOneLine (lines_from seg rest)
unfolding lines_from
lines_from-IsOneLine [] [] h = tt
lines_from-IsOneLine (c ∷ seg) [] h = (h, tt)
lines_from-IsOneLine seg (b ∷ rest) h = elim (Bool-cases (b == b'\n')) [
  | inl t ↦ rw t (h, lines_from-IsOneLine [] rest tt)
  | inr f ↦ rw f (lines_from-IsOneLine (seg ++ b ∷ []) rest (snoc-IsOneLine seg b h f))
]

-- No line holds a newline, and the lines with a newline behind each are the bytes, with a newline
-- behind them if there was none.
pub split_lines_lem :
    (bytes : Bytes)
    → All IsOneLine (split_lines bytes) × (unlines (split_lines bytes) ≡ terminated bytes)
unfolding split_lines
split_lines_lem bytes = (lines_from-IsOneLine [] bytes tt, unlines-lines_from [] bytes tt)

lines_from-append :
    (seg xs ys : Bytes)
    → ends_with_newline xs ≡ true
    → lines_from seg (xs ++ ys) ≡ lines_from seg xs ++ lines_from [] ys
unfolding lines_from ends_with_newline
lines_from-append seg [] ys h = absurd (ground arith)
lines_from-append seg (b ∷ []) ys h = rw h refl
lines_from-append seg (b ∷ c ∷ xs) ys h = elim (Bool-cases (b == b'\n')) [
  | inl t ↦ rw t (ap (◌∷◌ seg) (lines_from-append [] (c ∷ xs) ys h))
  | inr f ↦ rw f (lines_from-append (seg ++ b ∷ []) (c ∷ xs) ys h)
]

-- Bytes that end with a newline are split apart from what follows.
pub split_lines-append :
    (xs ys : Bytes)
    → ends_with_newline xs ≡ true
    → split_lines (xs ++ ys) ≡ split_lines xs ++ split_lines ys
unfolding split_lines
split_lines-append xs ys h = lines_from-append [] xs ys h

lines_from-one_line :
    (seg xs : Bytes) (c : ℕ) → IsOneLine xs → lines_from (c ∷ seg) xs ≡ (c ∷ seg ++ xs) ∷ []
unfolding lines_from
lines_from-one_line seg [] c h = ap (λ l. (c ∷ l) ∷ []) (sym (append-nil seg))
lines_from-one_line seg (x ∷ xs) c h =
    rw (lines_from, h.0)
      (lines_from-one_line (seg ++ x ∷ []) xs c h.1
        ∙ ap (λ l. (c ∷ l) ∷ []) (append_assoc seg (x ∷ []) xs))

-- One line without its newline.
pub split_one_line :
    (c : ℕ) (xs : Bytes) → IsOneLine (c ∷ xs) → split_lines (c ∷ xs) ≡ (c ∷ xs) ∷ []
unfolding split_lines lines_from
split_one_line c xs h = rw (split_lines, lines_from, h.0) (lines_from-one_line [] xs c h.1)

lines_from-ended :
    (seg xs : Bytes) → IsOneLine xs → lines_from seg (xs ++ b'\n' ∷ []) ≡ (seg ++ xs) ∷ []
unfolding lines_from
lines_from-ended seg [] h = ap (λ l. l ∷ []) (sym (append-nil seg))
lines_from-ended seg (x ∷ xs) h =
    rw (lines_from, h.0)
      (lines_from-ended (seg ++ x ∷ []) xs h.1 ∙ ap (λ l. l ∷ []) (append_assoc seg (x ∷ []) xs))

-- One line with its newline.
pub split_ended : (xs : Bytes) → IsOneLine xs → split_lines (xs ++ b'\n' ∷ []) ≡ xs ∷ []
unfolding split_lines
split_ended xs h = lines_from-ended [] xs h

pub newline_ends : (xs : Bytes) → ends_with_newline (xs ++ b'\n' ∷ []) ≡ true
unfolding ends_with_newline
newline_ends [] = refl
newline_ends (x ∷ []) = refl
newline_ends (x ∷ y ∷ xs) = newline_ends (y ∷ xs)

pub append-IsOneLine : (xs ys : Bytes) → IsOneLine xs → IsOneLine ys → IsOneLine (xs ++ ys)
append-IsOneLine [] ys a b = b
append-IsOneLine (x ∷ xs) ys a b = (a.0, append-IsOneLine xs ys a.1 b)
