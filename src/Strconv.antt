-- ===== src/Strconv.antt =====
-- What the programs use of strconv, and fmt's %d.
pub mod RoundTrip
use Prim.Native.Char.{Char, code}
use jackrabbit.Base.{
  ℕ, zero, suc, ◌+◌, ◌-◌, ◌*◌, ◌/◌, ◌%◌, ◌^◌, String, ℤ, nat_eq, string_eq, leb, ltb, ◌==◌,
  if◌then◌else◌, Bool, ◌&&◌, ◌||◌, Option, none, some, sub_ℕ, true, false, any_of, [], ◌∷◌,
}

-- The digits of strconv.Atoi, most significant first.
unfoldable pub digits_from : ℕ → String → Option ℕ
digits_from acc String.[] = some acc
digits_from acc (String.◌∷◌ c s) =
    let rest = digits_from (acc * 10 + (code c - b'0')) s in
    if leb b'0' (code c) && leb (code c) b'9' then rest else none

abbrev pub int_of : Bool → ℕ → Option ℤ
int_of negative n =
    if negative
    then (if leb n (2 ^ 63) then some (sub_ℕ 0 n) else none)
    else (if ltb n (2 ^ 63) then some (ℤ.pos n) else none)

abbrev pub int_from : Bool → Option ℕ → Option ℤ
int_from negative none = none
int_from negative (some n) = int_of negative n

unfoldable pub signed : Bool → String → Option ℤ
signed negative String.[] = none
signed negative (String.◌∷◌ c s) = int_from negative (digits_from 0 (String.◌∷◌ c s))

-- strconv.Atoi: an optional sign and at least one digit, within the 64-bit range.
unfoldable pub atoi : String → Option ℤ
unfolding signed digits_from
atoi String.[] = none
atoi (String.◌∷◌ c s) =
    if code c == b'-'
    then signed Bool.true s
    else if code c == b'+'
    then signed Bool.false s
    else signed Bool.false (String.◌∷◌ c s)

-- The character of a digit below ten.
unfoldable pub digit : ℕ → Char
digit zero = "0"
digit (suc zero) = "1"
digit (suc (suc zero)) = "2"
digit (suc (suc (suc zero))) = "3"
digit (suc (suc (suc (suc zero)))) = "4"
digit (suc (suc (suc (suc (suc zero))))) = "5"
digit (suc (suc (suc (suc (suc (suc zero)))))) = "6"
digit (suc (suc (suc (suc (suc (suc (suc zero))))))) = "7"
digit (suc (suc (suc (suc (suc (suc (suc (suc zero)))))))) = "8"
digit (suc (suc (suc (suc (suc (suc (suc (suc (suc d))))))))) = "9"

-- The decimal digits of a number in front of a text. A number has fewer digits than the fuel, which is
-- above it.
unfoldable pub decimal_before : ℕ → ℕ → String → String
unfolding digit
decimal_before zero n rest = rest
decimal_before (suc fuel) n rest =
    let more = decimal_before fuel (n / 10) (String.◌∷◌ (digit (n % 10)) rest) in
    if ltb n 10 then String.◌∷◌ (digit n) rest else more

unfoldable pub decimal : ℕ → String
unfolding decimal_before
decimal n = decimal_before (suc n) n String.[]

-- "%d".
unfoldable pub print_int : ℤ → String
unfolding decimal
print_int (ℤ.pos n) = decimal n
print_int (ℤ.negsuc n) = String.◌∷◌ "-" (decimal (suc n))

-- strconv.ParseBool.
unfoldable pub parse_bool : String → Option Bool
unfolding any_of
parse_bool s =
    if any_of ("1" ∷ "t" ∷ "T" ∷ "TRUE" ∷ "true" ∷ "True" ∷ []) s
    then some true
    else if any_of ("0" ∷ "f" ∷ "F" ∷ "FALSE" ∷ "false" ∷ "False" ∷ []) s
    then some false
    else none
