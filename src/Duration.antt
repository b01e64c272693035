-- ===== src/Duration.antt =====
-- Go's time.Duration, an int64 of nanoseconds.
use jackrabbit.Base.{ℕ, suc, ◌*◌, ◌%◌, ◌^◌, ◌-◌, ℤ, ltb, leb, if◌then◌else◌, sub_ℕ}

abbrev pub millisecond : ℕ
millisecond = 1_000_000

abbrev pub second : ℕ
second = 1_000_000_000

-- A magnitude, and its negative, as an int64.
abbrev wrapped_pos : ℕ → ℤ
wrapped_pos n =
    if ltb (n % 2 ^ 64) (2 ^ 63) then ℤ.pos (n % 2 ^ 64) else sub_ℕ (n % 2 ^ 64) (2 ^ 64)

abbrev wrapped_neg : ℕ → ℤ
wrapped_neg n =
    if leb (n % 2 ^ 64) (2 ^ 63) then sub_ℕ 0 (n % 2 ^ 64) else ℤ.pos (2 ^ 64 - n % 2 ^ 64)

-- time.Duration(n) * unit.
unfoldable pub times : ℤ → ℕ → ℤ
times (ℤ.pos n) unit = wrapped_pos (n * unit)
times (ℤ.negsuc n) unit = wrapped_neg (suc n * unit)
