-- ===== src/Password.antt =====
-- server/storage/storage.go: password hashes.
pub mod Hex
pub mod Verify
use Prim.Native.Nat.{bit_xor}
use medge_net.Prelude.{
  ℕ, zero, suc, ◌+◌, ◌-◌, ◌*◌, ◌/◌, ◌%◌, ◌^◌, Bool, true, false, ◌&&◌, not, List, [], ◌∷◌, ◌++◌,
  Option, none, some, Bytes, codes, length, take, ltb, leb, ◌==◌, equal, if◌then◌else◌,
}
use medge_net.Prelude.Int.{ℤ, pos, negsuc}
use medge_net.Env.{Env}
use medge_net.Text.{split, has_prefix}
use medge_net.Text.Number.{parse_int, format_nat}

abbrev pub password_scheme : Bytes
password_scheme = codes "pbkdf2_sha256"

abbrev pub password_iterations : ℕ
password_iterations = 260000

hex_digit : ℕ → ℕ
hex_digit n = if ltb n 10 then b'0' + n else b'a' + (n - 10)

-- `hex.EncodeToString`.
unfoldable pub hex_encode : Bytes → Bytes
unfolding hex_digit
hex_encode [] = []
hex_encode (b ∷ bs) = hex_digit (b / 16) ∷ hex_digit (b % 16) ∷ hex_encode bs

hex_value : ℕ → Option ℕ
hex_value c =
    if leb b'0' c && leb c b'9'
    then some (c - b'0')
    else if leb b'a' c && leb c b'f'
    then some (c - b'a' + 10)
    else if leb b'A' c && leb c b'F'
    then some (c - b'A' + 10)
    else none

join_nibbles : Option ℕ → Option ℕ → Option Bytes → Option Bytes
join_nibbles (some hi) (some lo) (some rest) = some ((hi * 16 + lo) ∷ rest)
join_nibbles _ _ _ = none

-- `hex.DecodeString`.
unfoldable pub hex_decode : Bytes → Option Bytes
unfolding hex_value join_nibbles
hex_decode [] = some []
hex_decode (c ∷ []) = none
hex_decode (c ∷ d ∷ s) = join_nibbles (hex_value c) (hex_value d) (hex_decode s)

xor_bytes : Bytes → Bytes → Bytes
xor_bytes [] u = []
xor_bytes (x ∷ t) [] = x ∷ t
xor_bytes (x ∷ t) (y ∷ u) = (bit_xor x y % 256) ∷ xor_bytes t u

-- How often `for i := 1; i < iterations; i++` runs.
more_rounds : ℤ → ℕ
more_rounds (pos n) = n - 1
more_rounds (negsuc n) = 0

module _ (env : Env) where
  pub prf : Bytes → Bytes → Bytes
  prf key text = env.hmac key text

  -- The inner loop: `count` more rounds on `u`, folded into `t`.
  pub rounds : ℕ → Bytes → Bytes → Bytes → Bytes
  unfolding prf xor_bytes
  rounds zero password u t = t
  rounds (suc count) password u t =
      let u' = prf password u in rounds count password u' (xor_bytes t u')

  block_bytes : ℕ → Bytes
  block_bytes n = (n / 2 ^ 24 % 256) ∷ (n / 2 ^ 16 % 256) ∷ (n / 2 ^ 8 % 256) ∷ (n % 256) ∷ []

  -- Blocks `block`, `block + 1`, … of which `left` are still to be made.
  pub blocks : ℕ → ℕ → Bytes → Bytes → ℤ → Bytes
  unfolding rounds prf block_bytes more_rounds
  blocks zero block password salt iterations = []
  blocks (suc left) block password salt iterations =
      let u = prf password (salt ++ block_bytes block) in
      rounds (more_rounds iterations) password u u
      ++ blocks left (block + 1) password salt iterations

  unfoldable pub pbkdf2_sha256 : Bytes → Bytes → ℤ → ℕ → Bytes
  unfolding blocks
  pbkdf2_sha256 password salt iterations key_len =
      take key_len (blocks ((key_len + 32 - 1) / 32) 1 password salt iterations)

  -- `hashPassword` with the salt that was drawn.
  unfoldable pub hash_with : Bytes → Bytes → Bytes
  hash_with salt password =
      password_scheme
      ++ (b'$'
          ∷ (format_nat password_iterations
              ++ (b'$'
                  ∷ (hex_encode salt
                      ++ (b'$'
                          ∷ hex_encode
                              (pbkdf2_sha256 password salt (pos password_iterations) 32))))))

  verify_digest : Bytes → ℤ → Option Bytes → Option Bytes → Bool
  verify_digest password iterations (some salt) (some expected) =
      equal (pbkdf2_sha256 password salt iterations (length expected)) expected
  verify_digest password iterations _ _ = false

  verify_parts : Bytes → Bytes → List Bytes → Bool
  unfolding verify_digest
  verify_parts password stored (scheme ∷ iterations ∷ salt ∷ digest ∷ []) =
      if not (equal scheme password_scheme)
      then equal stored password
      else if not (parse_int iterations).1
      then false
      else verify_digest password (parse_int iterations).0 (hex_decode salt) (hex_decode digest)
  verify_parts password stored _ = equal stored password

  -- A stored value of another form is a password in clear text.
  unfoldable pub verify_password : Bytes → Bytes → Bool
  unfolding verify_parts
  verify_password password stored = verify_parts password stored (split b'$' stored)

-- `strings.HasPrefix(stored, passwordScheme+"$")`.
unfoldable pub is_hashed : Bytes → Bool
is_hashed stored = has_prefix stored (password_scheme ++ b'$' ∷ [])
