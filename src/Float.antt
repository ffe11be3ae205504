-- ===== src/Float.antt =====
-- Go's `float64`: the sign bit and the other 63 bits. Comparisons are those of IEEE 754; reading and
-- printing decimals is the library's, and stands in `Env`.
use medge_net.Prelude.{ℕ, ◌+◌, ◌-◌, ◌^◌, Bool, false, not, ◌&&◌, ltb, leb, ◌==◌, if◌then◌else◌}

pub record Float64 : Type 0 where
  pub negative : Bool
  pub magnitude : ℕ

abbrev infinity_bits : ℕ
infinity_bits = 0x7ff0000000000000

abbrev pub nought : Float64
nought = record { negative = false; magnitude = 0 }

-- `noTime`, 3599.99.
abbrev pub no_time : Float64
no_time = record { negative = false; magnitude = 0x40ac1ffae147ae14 }

unfoldable pub is_nan : Float64 → Bool
is_nan x = ltb infinity_bits x.magnitude

-- A number that grows with the value; both zeros have the same.
unfoldable pub order : Float64 → ℕ
order x = if x.negative then 2 ^ 63 - x.magnitude else 2 ^ 63 + x.magnitude

-- `x < y`
unfoldable pub less : Float64 → Float64 → Bool
unfolding is_nan order
less x y = not (is_nan x) && not (is_nan y) && ltb (order x) (order y)

-- `x <= y`
unfoldable pub at_most : Float64 → Float64 → Bool
unfolding is_nan order
at_most x y = not (is_nan x) && not (is_nan y) && leb (order x) (order y)

-- `x > 0`
abbrev pub is_above : Float64 → Bool
is_above x = less nought x

-- `x == 0`
unfoldable pub is_nought : Float64 → Bool
is_nought x = x.magnitude == 0
