-- ===== src/Text/Number.antt =====
-- Go's `strconv` on decimal text: `ParseInt(s, 10, 64)`, which `Atoi` agrees with, and `FormatInt`.
pub mod RoundTrip
use medge_net.Prelude.{
  ℕ, zero, suc, ◌+◌, ◌-◌, ◌*◌, ◌/◌, ◌%◌, ◌^◌, Bool, true, false, ◌||◌, List, [], ◌∷◌, Option, none,
  some, Bytes, ltb, leb, ◌==◌, if◌then◌else◌,
}
use medge_net.Prelude.Int.{ℤ, pos, negsuc}

abbrev pub max_u64 : ℕ
max_u64 = 2 ^ 64 - 1

-- -n
abbrev pub neg : ℕ → ℤ
neg zero = pos 0
neg (suc n) = negsuc n

abbrev pub is_digit : ℕ → Bool
is_digit c = if ltb c b'0' then false else leb c b'9'

-- The digit loop of `ParseUint`: `none` on a byte that is no digit; it stops at the first overflow.
pub scan : Bytes → ℕ → Option ℕ
scan [] n = some n
scan (c ∷ s) n =
    let rest = scan s (n * 10 + (c - b'0')) in
    if is_digit c then (if ltb max_u64 (n * 10 + (c - b'0')) then some max_u64 else rest) else none

-- The value and whether there was no error. A number out of range is clamped, with an error.
clamp : Bool → Option ℕ → ℤ × Bool
clamp negative none = (pos 0, false)
clamp false (some n) = if leb (2 ^ 63) n then (pos (2 ^ 63 - 1), false) else (pos n, true)
clamp true (some n) = if ltb (2 ^ 63) n then (neg (2 ^ 63), false) else (neg n, true)

-- An empty digit part is an error.
parse_digits : Bool → Bytes → ℤ × Bool
unfolding scan clamp
parse_digits negative [] = (pos 0, false)
parse_digits negative (c ∷ s) = clamp negative (scan (c ∷ s) 0)

unfoldable pub parse_int : Bytes → ℤ × Bool
unfolding parse_digits
parse_int [] = (pos 0, false)
parse_int (c ∷ s) =
    if c == b'+'
    then parse_digits false s
    else if c == b'-'
    then parse_digits true s
    else parse_digits false (c ∷ s)

-- The loop of `FormatInt`, last digit first; `fuel` is at least the number of digits.
pub digits : ℕ → ℕ → Bytes → Bytes
digits zero n out = out
digits (suc fuel) n out =
    let more = digits fuel (n / 10) ((b'0' + n % 10) ∷ out) in if n == 0 then out else more

unfoldable pub format_nat : ℕ → Bytes
unfolding digits
format_nat n = if n == 0 then b'0' ∷ [] else digits n n []

unfoldable pub format_int : ℤ → Bytes
unfolding format_nat
format_int (pos n) = format_nat n
format_int (negsuc n) = b'-' ∷ format_nat (suc n)
