-- ===== src/Fesl/Validate/Accepts.antt =====
-- What the checks accept, in terms of bytes.
use medge_net.Prelude.{
  ℕ, ◌≤◌, ◌<◌, ◌≡◌, ◌≢◌, ◌↔◌, refl, Bool, true, false, ◌&&◌, ◌||◌, List, [], ◌∷◌, Bytes, All, arith,
  length, leb, ltb, ◌==◌,
}
use medge_net.Prelude.Int.{ℤ}
use medge_net.Text.{is_empty}
use medge_net.Text.Runes.{runes, trim_space}
use medge_net.Text.Runes.Bytewise.{any, any-runes, any-runes_unsafe}
use medge_net.Fesl.Validate.{
  accepted, exceeds, is_positive, line_runes, persona_runes, unsafe, password_runes,
  validate_account_nuid, validate_persona_name, validate_account_password,
}

pub any-eq-false_iff : (f : ℕ → Bool) (s : Bytes) → (any f s ≡ false) ↔ All (λ c. f c ≡ false) s
unfolding any
any-eq-false_iff f [] = ground arith
any-eq-false_iff f (c ∷ s) = ground (arith, any-eq-false_iff f s)

-- No limit is set, or the value keeps to it.
abbrev pub Fits : ℤ → Bytes → Type 0
Fits max_len value = (is_positive max_len && exceeds (length value) max_len) ≡ false

abbrev bad_line : Bool → ℕ → Bool
bad_line sep r = (ltb r 0x20 || r == 0x7f || r == b'=') || (sep && (r == b'/' || r == b'\\'))

line_runes_iff :
    (sep : Bool) (rs : List ℕ) → (line_runes sep rs ≡ accepted) ↔ (any (bad_line sep) rs ≡ false)
unfolding any line_runes
line_runes_iff sep [] = ground arith
line_runes_iff sep (r ∷ rs) = ground (arith, line_runes_iff sep rs)

-- A letter, a digit, `_`, `.`, `-` or a space.
unfoldable pub name_char : ℕ → Bool
name_char r =
    leb b'A' r && leb r b'Z'
    || leb b'a' r && leb r b'z'
    || leb b'0' r && leb r b'9'
    || r == b'_'
    || r == b'.'
    || r == b'-'
    || r == b' '

unsafe-name_char : (r : ℕ) → (unsafe r ≡ false) ↔ (name_char r ≡ true)
unfolding unsafe name_char
unsafe-name_char r = ground arith

persona_runes_iff : (rs : List ℕ) → (persona_runes rs ≡ accepted) ↔ (any unsafe rs ≡ false)
unfolding any persona_runes
persona_runes_iff [] = ground arith
persona_runes_iff (r ∷ rs) = ground (arith, persona_runes_iff rs)

any_mono :
    (f g : ℕ → Bool) (rs : List ℕ)
    → ((r : ℕ) → f r ≡ false → g r ≡ false)
    → any f rs ≡ false
    → any g rs ≡ false
unfolding any
any_mono f g [] h e = refl
any_mono f g (r ∷ rs) h e = ground (arith, h r, any_mono f g rs h)

unsafe_high : (r : ℕ) → 0x80 ≤ r → unsafe r ≡ true
unfolding unsafe
unsafe_high r h = ground arith

bad_line_high : (sep : Bool) (r : ℕ) → 0x80 ≤ r → bad_line sep r ≡ false
bad_line_high sep r h = ground arith

-- A safe character is no control character, no `=` and no separator.
unsafe-bad_line : (r : ℕ) → unsafe r ≡ false → bad_line true r ≡ false
unfolding unsafe
unsafe-bad_line r h = ground arith

All-name_char : (s : Bytes) → (any unsafe s ≡ false) ↔ All (λ c. name_char c ≡ true) s
unfolding any
All-name_char [] = ground arith
All-name_char (c ∷ s) = ground (arith, unsafe-name_char c, All-name_char s)

-- A persona name is accepted exactly when it is not blank, keeps to the limit where one is set, and
-- every one of its bytes is a letter, a digit, `_`, `.`, `-` or a space.
pub validate_persona_name_iff :
    (value : Bytes) (max_len : ℤ)
    → (validate_persona_name value max_len ≡ accepted) ↔ (
        (is_empty (trim_space value) ≡ false)
        × Fits max_len value
        × All (λ c. name_char c ≡ true) value)
unfolding validate_persona_name
validate_persona_name_iff [] max_len = unfold trim_space in ground arith
validate_persona_name_iff (c ∷ s) max_len =
    let v = c ∷ s in
    ground (
      arith,
      line_runes_iff true (runes v),
      persona_runes_iff (runes v),
      All-name_char v,
      any-runes_unsafe unsafe v unsafe_high,
      any_mono unsafe (bad_line true) (runes v) unsafe-bad_line,
    )

All-line_char :
    (s : Bytes)
    → (any (bad_line false) s ≡ false) ↔ All (λ c. (0x20 ≤ c) × (c ≢ 0x7f) × (c ≢ b'=')) s
unfolding any
All-line_char [] = ground arith
All-line_char (c ∷ s) = ground (arith, All-line_char s)

-- An account name is accepted exactly when it is not blank, keeps to the limit where one is set, and
-- holds no control character, no DEL and no `=`.
pub validate_account_nuid_iff :
    (value : Bytes) (max_len : ℤ)
    → (validate_account_nuid value max_len ≡ accepted) ↔ (
        (is_empty (trim_space value) ≡ false)
        × Fits max_len value
        × All (λ c. (0x20 ≤ c) × (c ≢ 0x7f) × (c ≢ b'=')) value)
unfolding validate_account_nuid
validate_account_nuid_iff [] max_len = unfold trim_space in ground arith
validate_account_nuid_iff (c ∷ s) max_len =
    let v = c ∷ s in
    ground (
      arith,
      line_runes_iff false (runes v),
      All-line_char v,
      any-runes (bad_line false) v (bad_line_high false),
    )

abbrev bad_password : ℕ → Bool
bad_password r = r == 0 || r == b'\r' || r == b'\n'

password_runes_iff : (rs : List ℕ) → (password_runes rs ≡ accepted) ↔ (any bad_password rs ≡ false)
unfolding any password_runes
password_runes_iff [] = ground arith
password_runes_iff (r ∷ rs) = ground (arith, password_runes_iff rs)

All-password :
    (s : Bytes) → (any bad_password s ≡ false) ↔ All (λ c. (c ≢ 0) × (c ≢ b'\r') × (c ≢ b'\n')) s
unfolding any
All-password [] = ground arith
All-password (c ∷ s) = ground (arith, All-password s)

bad_password_high : (r : ℕ) → 0x80 ≤ r → bad_password r ≡ false
bad_password_high r h = ground arith

-- A password is accepted exactly when it has 1 to 256 bytes and none is NUL, CR or LF.
pub validate_account_password_iff :
    (value : Bytes)
    → (validate_account_password value ≡ accepted) ↔ (
        (0 < length value)
        × (length value ≤ 256)
        × All (λ c. (c ≢ 0) × (c ≢ b'\r') × (c ≢ b'\n')) value)
unfolding validate_account_password
validate_account_password_iff [] = ground arith
validate_account_password_iff (c ∷ s) =
    let v = c ∷ s in
    ground (
      arith,
      password_runes_iff (runes v),
      All-password v,
      any-runes bad_password v bad_password_high,
    )
