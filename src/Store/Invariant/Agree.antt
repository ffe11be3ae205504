-- ===== src/Store/Invariant/Agree.antt =====
-- A key of three columns against the test that an SQL statement makes of it.
use medge_net.Prelude.{◌≡◌, ◌≢◌, ap, true, false, ◌&&◌, Bytes, equal, equal_iff, arith}
use medge_net.Prelude.Int.{ℤ, ◌==ℤ◌, ==ℤ_iff}

abbrev pub Key : Type 0
Key = ℤ × (Bytes × ℤ)

abbrev pub key_of : ℤ → Bytes → ℤ → Key
key_of id key period_id = (id, (key, period_id))

pub keys_agree :
    (a b : ℤ) (s t : Bytes) (c d : ℤ)
    → (a ==ℤ b && equal s t && c ==ℤ d) ≡ true
    → key_of a s c ≡ key_of b t d
keys_agree a b s t c d h = ground (arith, ==ℤ_iff a b, ==ℤ_iff c d, equal_iff s t)

pub keys_differ :
    (a b : ℤ) (s t : Bytes) (c d : ℤ)
    → (a ==ℤ b && equal s t && c ==ℤ d) ≡ false
    → key_of a s c ≢ key_of b t d
keys_differ a b s t c d h e =
    let first = ap (λ (k : Key). k.0) e in
    let second = ap (λ (k : Key). k.1.0) e in
    let third = ap (λ (k : Key). k.1.1) e in
    ground (arith, ==ℤ_iff a b, ==ℤ_iff c d, equal_iff s t, first, second, third)
