-- ===== src/Password/Verify.antt =====
-- Checking a password against a stored hash.
use medge_net.Prelude.{
  ℕ, zero, suc, ◌<◌, ◌≡◌, refl, ap, ◌∙◌, true, [], ◌∷◌, ◌++◌, Bytes, All, length, take, arith,
  codes, equal, equal_refl, append-nil, append_assoc, length-take,
}
use medge_net.Prelude.Int.{ℤ, pos}
use medge_net.Env.{Env, HmacSize}
use medge_net.Text.{split, has_prefix}
use medge_net.Text.Lines.{Lacks, split-append, split_one}
use medge_net.Text.Number.{parse_int, format_nat}
use medge_net.Password.{
  password_scheme, password_iterations, hex_encode, xor_bytes, prf, rounds, blocks, more_rounds,
  pbkdf2_sha256, hash_with, verify_parts, verify_password, is_hashed,
}
use medge_net.Password.Hex.{hex_decode-hex_encode, hex_encode-Lacks}

abbrev pub AreBytes : Bytes → Type 0
AreBytes = All (λ b. b < 256)

length-xor_bytes : (t u : Bytes) → length (xor_bytes t u) ≡ length t
unfolding xor_bytes
length-xor_bytes [] u = refl
length-xor_bytes (x ∷ t) [] = refl
length-xor_bytes (x ∷ t) (y ∷ u) = ap suc (length-xor_bytes t u)

xor_bytes-AreBytes : (t u : Bytes) → AreBytes t → AreBytes (xor_bytes t u)
unfolding xor_bytes
xor_bytes-AreBytes [] u h = tt
xor_bytes-AreBytes (x ∷ t) [] h = h
xor_bytes-AreBytes (x ∷ t) (y ∷ u) h = (omega arith, xor_bytes-AreBytes t u h.1)

take-AreBytes : (n : ℕ) (s : Bytes) → AreBytes s → AreBytes (take n s)
take-AreBytes zero s h = tt
take-AreBytes (suc n) [] h = tt
take-AreBytes (suc n) (c ∷ s) h = (h.0, take-AreBytes n s h.1)

module _ (env : Env) where
  length-rounds : (n : ℕ) (password u t : Bytes) → length (rounds env n password u t) ≡ length t
  unfolding rounds
  length-rounds zero password u t = refl
  length-rounds (suc n) password u t =
      let u' = prf env password u in
      length-rounds n password u' (xor_bytes t u') ∙ length-xor_bytes t u'

  rounds-AreBytes :
      (n : ℕ) (password u t : Bytes) → AreBytes t → AreBytes (rounds env n password u t)
  unfolding rounds
  rounds-AreBytes zero password u t h = h
  rounds-AreBytes (suc n) password u t h =
      let u' = prf env password u in
      rounds-AreBytes n password u' (xor_bytes t u') (xor_bytes-AreBytes t u' h)

scheme-Lacks : Lacks b'$' password_scheme
unfolding codes
scheme-Lacks = omega arith

iterations_lem :
    Lacks b'$' (format_nat password_iterations)
    × (parse_int (format_nat password_iterations) ≡ (pos password_iterations, true))
unfolding format_nat parse_int
iterations_lem = (omega arith, refl)

split_hash :
    (salt digest : Bytes)
    → split b'$' (
        password_scheme
        ++ (b'$'
            ∷ (format_nat password_iterations
                ++ (b'$' ∷ (hex_encode salt ++ (b'$' ∷ hex_encode digest))))))
      ≡ password_scheme ∷ format_nat password_iterations ∷ hex_encode salt ∷ hex_encode digest ∷ []
split_hash salt digest = rw (
  split-append b'$' password_scheme _ scheme-Lacks,
  split-append b'$' (format_nat password_iterations) _ iterations_lem.0,
  split-append b'$' (hex_encode salt) (hex_encode digest) (hex_encode-Lacks salt),
  split_one b'$' (hex_encode digest) (hex_encode-Lacks digest),
)

module _ (env : Env) (hs : HmacSize env) where
  -- A derived key of 32 bytes has 32 bytes.
  pub length-pbkdf2_sha256 :
      (password salt : Bytes) (iterations : ℤ)
      → length (pbkdf2_sha256 env password salt iterations 32) ≡ 32
  unfolding pbkdf2_sha256 blocks prf
  length-pbkdf2_sha256 password salt iterations =
      rw (append-nil, length-take, length-rounds, hs.size)

  pbkdf2_sha256-AreBytes :
      (password salt : Bytes) (iterations : ℤ)
      → AreBytes (pbkdf2_sha256 env password salt iterations 32)
  unfolding pbkdf2_sha256 blocks prf
  pbkdf2_sha256-AreBytes password salt iterations = rw append-nil (
      take-AreBytes 32 _ (rounds-AreBytes env (more_rounds iterations) password _ _ (hs.bytes _ _)))

  verify_hash :
      (salt password attempt : Bytes)
      → AreBytes salt
      → verify_password env attempt (hash_with env salt password)
        ≡ equal
            (pbkdf2_sha256 env attempt salt (pos password_iterations) 32)
            (pbkdf2_sha256 env password salt (pos password_iterations) 32)
  unfolding verify_password hash_with
  verify_hash salt password attempt h =
      let n = pos password_iterations in
      let key = pbkdf2_sha256 env password salt n 32 in
      rw (
        split_hash salt key,
        verify_parts,
        equal_refl,
        iterations_lem.1,
        hex_decode-hex_encode salt h,
        hex_decode-hex_encode key (pbkdf2_sha256-AreBytes password salt n),
        length-pbkdf2_sha256 password salt n,
      )

  -- Where HMAC gives 32 bytes, a password is accepted against the stored hash of another, made with any salt of bytes, exactly
  -- when the two derive the same key; so the right password always is.
  pub verify_password-hash_with :
      (salt password attempt : Bytes)
      → AreBytes salt
      → (verify_password env attempt (hash_with env salt password)
          ≡ equal
              (pbkdf2_sha256 env attempt salt (pos password_iterations) 32)
              (pbkdf2_sha256 env password salt (pos password_iterations) 32))
        × (verify_password env password (hash_with env salt password) ≡ true)
  verify_password-hash_with salt password attempt h =
      (verify_hash salt password attempt h, verify_hash salt password password h ∙ equal_refl _)

has_prefix-append : (a b : Bytes) → has_prefix (a ++ b) a ≡ true
unfolding has_prefix
has_prefix-append [] [] = refl
has_prefix-append [] (x ∷ b) = refl
has_prefix-append (x ∷ a) b = ground (arith, has_prefix-append a b)

-- What `hashPassword` makes is recognised as a hash.
pub is_hashed-hash_with :
    (env : Env) (salt password : Bytes) → is_hashed (hash_with env salt password) ≡ true
unfolding is_hashed hash_with
is_hashed-hash_with env salt password =
    rw (← append_assoc password_scheme (b'$' ∷ []))
      (has_prefix-append (password_scheme ++ b'$' ∷ []) _)
