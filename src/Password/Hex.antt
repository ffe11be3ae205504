-- ===== src/Password/Hex.antt =====
-- Hexadecimal text.
use medge_net.Prelude.{ℕ, ◌/◌, ◌%◌, ◌<◌, ◌≡◌, ◌≢◌, refl, [], ◌∷◌, some, Bytes, All, arith}
use medge_net.Password.{hex_digit, hex_value, hex_encode, hex_decode}
use medge_net.Text.Lines.{Lacks}

hex_value-hex_digit : (n : ℕ) → n < 16 → hex_value (hex_digit n) ≡ some n
unfolding hex_value hex_digit
hex_value-hex_digit n h = ground arith

-- Decoding undoes encoding.
pub hex_decode-hex_encode :
    (bs : Bytes) → All (λ b. b < 256) bs → hex_decode (hex_encode bs) ≡ some bs
unfolding hex_decode hex_encode
hex_decode-hex_encode [] h = refl
hex_decode-hex_encode (b ∷ bs) h =
    rw
      (
        hex_value-hex_digit (b / 16) (omega arith),
        hex_value-hex_digit (b % 16) (omega arith),
        hex_decode-hex_encode bs h.1,
      )
      (ground arith)

hex_digit_ne : (n : ℕ) → hex_digit n ≢ b'$'
unfolding hex_digit
hex_digit_ne n = ground arith

pub hex_encode-Lacks : (bs : Bytes) → Lacks b'$' (hex_encode bs)
unfolding hex_encode
hex_encode-Lacks [] = tt
hex_encode-Lacks (b ∷ bs) = (hex_digit_ne (b / 16), (hex_digit_ne (b % 16), hex_encode-Lacks bs))
