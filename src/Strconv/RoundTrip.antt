-- ===== src/Strconv/RoundTrip.antt =====
-- What is printed in decimal is read back.
use Prim.Native.Char.{Char, code}
use jackrabbit.Base.{
  ℕ, zero, suc, ◌+◌, ◌-◌, ◌*◌, ◌/◌, ◌%◌, ◌^◌, ◌<◌, ◌≡◌, refl, ap, sym, ◌∙◌, String, ℤ, nat_eq, leb,
  ltb, ◌==◌, true, false, some, arith, Bool-cases, inl, inr,
}
use jackrabbit.Strconv.{
  digit, digits_from, signed, atoi, decimal_before, decimal, print_int, int_from,
}

code-digit : (d : ℕ) → d < 10 → code (digit d) ≡ b'0' + d
unfolding digit
code-digit zero h = refl
code-digit (suc zero) h = refl
code-digit (suc (suc zero)) h = refl
code-digit (suc (suc (suc zero))) h = refl
code-digit (suc (suc (suc (suc zero)))) h = refl
code-digit (suc (suc (suc (suc (suc zero))))) h = refl
code-digit (suc (suc (suc (suc (suc (suc zero)))))) h = refl
code-digit (suc (suc (suc (suc (suc (suc (suc zero))))))) h = refl
code-digit (suc (suc (suc (suc (suc (suc (suc (suc zero)))))))) h = refl
code-digit (suc (suc (suc (suc (suc (suc (suc (suc (suc zero))))))))) h = refl
code-digit (suc (suc (suc (suc (suc (suc (suc (suc (suc (suc d)))))))))) h = absurd (omega arith)

-- One more digit is read.
digits_from-digit :
    (acc d : ℕ) (rest : String)
    → d < 10
    → digits_from acc (String.◌∷◌ (digit d) rest) ≡ digits_from (acc * 10 + d) rest
unfolding digits_from
digits_from-digit acc d rest h =
    let low : leb b'0' (b'0' + d) ≡ true = ground arith in
    let high : leb (b'0' + d) b'9' ≡ true = ground arith in
    let value : acc * 10 + (b'0' + d - b'0') ≡ acc * 10 + d = omega arith in
    rw (code-digit d h, low, high) (ap (λ n. digits_from n rest) value)

digits_from-decimal_before :
    (fuel n : ℕ) (rest : String)
    → n < fuel
    → digits_from 0 (decimal_before fuel n rest) ≡ digits_from n rest
unfolding decimal_before
digits_from-decimal_before zero n rest h = absurd (omega arith)
digits_from-decimal_before (suc fuel) n rest h = elim (Bool-cases (ltb n 10)) [
  | inl t ↦
      rw t (digits_from-digit 0 n rest (ground arith) ∙ ap (λ m. digits_from m rest) (omega arith))
  | inr f ↦ rw f (
      digits_from-decimal_before fuel (n / 10) (String.◌∷◌ (digit (n % 10)) rest) (ground arith)
      ∙ digits_from-digit (n / 10) (n % 10) rest (omega arith)
      ∙ ap (λ m. digits_from m rest) (omega arith))
]

-- The text begins with a digit.
decimal_before-head :
    (fuel n : ℕ) (rest : String)
    → n < fuel
    → (d : ℕ) × (s : String) × (d < 10) × (decimal_before fuel n rest ≡ String.◌∷◌ (digit d) s)
unfolding decimal_before
decimal_before-head zero n rest h = absurd (omega arith)
decimal_before-head (suc fuel) n rest h = elim (Bool-cases (ltb n 10)) [
  | inl t ↦ rw t (n, rest, ground arith, refl)
  | inr f ↦
      rw f (decimal_before-head fuel (n / 10) (String.◌∷◌ (digit (n % 10)) rest) (ground arith))
]

signed_read :
    (c : Char) (s : String) (n : ℕ)
    → digits_from 0 (String.◌∷◌ c s) ≡ some n
    → n < 2 ^ 63
    → signed false (String.◌∷◌ c s) ≡ some (ℤ.pos n)
unfolding signed
signed_read c s n read h =
    let fits : ltb n (2 ^ 63) ≡ true = ground arith in ap (int_from false) read ∙ rw fits refl

-- A number that fits a 64-bit integer, printed in decimal, is read back.
pub atoi-print_int : (n : ℕ) → n < 2 ^ 63 → atoi (print_int (ℤ.pos n)) ≡ some (ℤ.pos n)
unfolding atoi print_int decimal
atoi-print_int n h =
    let (d, s, low, spelled) = decimal_before-head (suc n) n String.[] (omega arith) in
    let read : digits_from 0 (String.◌∷◌ (digit d) s) ≡ some n =
      ap (digits_from 0) (sym spelled)
      ∙ digits_from-decimal_before (suc n) n String.[] (omega arith)
      ∙ (unfold digits_from in refl) in
    let no_minus : (code (digit d) == b'-') ≡ false = rw (code-digit d low) (ground arith) in
    let no_plus : (code (digit d) == b'+') ≡ false = rw (code-digit d low) (ground arith) in
    ap atoi spelled ∙ rw (no_minus, no_plus) (signed_read (digit d) s n read h)
