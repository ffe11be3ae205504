-- ===== src/Fesl/Validate.antt =====
-- server/fesl/server.go: the checks on names and passwords that a client sends.
pub mod Accepts
use medge_net.Prelude.{
  ℕ, Bool, true, false, ◌&&◌, ◌||◌, not, List, [], ◌∷◌, Bytes, length, ltb, leb, ◌==◌,
  if◌then◌else◌,
}
use medge_net.Prelude.Int.{ℤ, pos, negsuc}
use medge_net.Text.{is_empty}
use medge_net.Text.Runes.{runes, trim_space}

-- The reason that a check returns; `none` is the empty string, which accepts.
pub data Reason : Type 0 where
  accepted empty too_long invalid_character path_separator unsafe_character : Reason

abbrev pub max_password_bytes : ℕ
max_password_bytes = 256

-- `a > b` where `a` is a length and `b` a Go `int`.
abbrev pub exceeds : ℕ → ℤ → Bool
exceeds n (pos m) = ltb m n
exceeds n (negsuc m) = true

abbrev pub is_positive : ℤ → Bool
is_positive (pos m) = ltb 0 m
is_positive (negsuc m) = false

line_runes : Bool → List ℕ → Reason
line_runes reject_separators [] = accepted
line_runes reject_separators (r ∷ rs) =
    if ltb r 0x20 || r == 0x7f || r == b'='
    then invalid_character
    else if reject_separators && (r == b'/' || r == b'\\')
    then path_separator
    else line_runes reject_separators rs

pub validate_line_identifier : Bytes → ℤ → Bool → Reason
unfolding line_runes
validate_line_identifier value max_len reject_separators =
    if is_empty value || is_empty (trim_space value)
    then empty
    else if is_positive max_len && exceeds (length value) max_len
    then too_long
    else line_runes reject_separators (runes value)

unfoldable pub validate_account_nuid : Bytes → ℤ → Reason
unfolding validate_line_identifier
validate_account_nuid value max_len = validate_line_identifier value max_len false

between : ℕ → ℕ → ℕ → Bool
between lo hi r = leb lo r && leb r hi

-- The condition inside the loop of `validatePersonaName`.
unfoldable pub unsafe : ℕ → Bool
unfolding between
unsafe r =
    not (between b'A' b'Z' r)
    && not (between b'a' b'z' r)
    && not (between b'0' b'9' r)
    && not (r == b'_')
    && not (r == b'.')
    && not (r == b'-')
    && not (r == b' ')

persona_runes : List ℕ → Reason
persona_runes [] = accepted
persona_runes (r ∷ rs) = if unsafe r then unsafe_character else persona_runes rs

abbrev pub is_accepted : Reason → Bool
is_accepted accepted = true
is_accepted _ = false

unfoldable pub validate_persona_name : Bytes → ℤ → Reason
unfolding validate_line_identifier persona_runes unsafe
validate_persona_name value max_len =
    let reason = validate_line_identifier value max_len true in
    if not (is_accepted reason) then reason else persona_runes (runes value)

password_runes : List ℕ → Reason
password_runes [] = accepted
password_runes (r ∷ rs) =
    if r == 0 || r == b'\r' || r == b'\n' then invalid_character else password_runes rs

unfoldable pub validate_account_password : Bytes → Reason
unfolding password_runes
validate_account_password value =
    if is_empty value
    then empty
    else if ltb max_password_bytes (length value)
    then too_long
    else password_runes (runes value)
