-- ===== src/Int64.antt =====
-- Arithmetic of Go's `int` and `int64`, which wraps around.
use medge_net.Prelude.{ℕ, ◌+◌, ◌-◌, ◌%◌, ◌^◌, ltb, leb, if◌then◌else◌}
use medge_net.Prelude.Int.{ℤ, pos, negsuc}

-- The 64 bits of an integer, and back.
unfoldable pub as_uint64 : ℤ → ℕ
as_uint64 (pos n) = n % 2 ^ 64
as_uint64 (negsuc n) = 2 ^ 64 - 1 - n % 2 ^ 64

unfoldable pub as_int64 : ℕ → ℤ
as_int64 n = if ltb n (2 ^ 63) then pos n else negsuc (2 ^ 64 - 1 - n)

unfoldable pub add_int64 : ℤ → ℤ → ℤ
unfolding as_uint64 as_int64
add_int64 a b = as_int64 ((as_uint64 a + as_uint64 b) % 2 ^ 64)

unfoldable pub sub_int64 : ℤ → ℤ → ℤ
unfolding as_uint64 as_int64
sub_int64 a b = as_int64 ((as_uint64 a + 2 ^ 64 - as_uint64 b) % 2 ^ 64)

-- `max(a, b)` of an integer and a number that is not negative.
unfoldable pub max_nat : ℤ → ℕ → ℕ
max_nat (pos a) b = if leb a b then b else a
max_nat (negsuc a) b = b
