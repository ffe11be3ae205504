-- ===== src/Locker/Identifier.antt =====
-- server/locker/server.go: `safeIdentifier`, the check on the names that become file names.
use medge_net.Prelude.{ℕ, Bool, false, ◌&&◌, ◌||◌, [], ◌∷◌, Bytes, length, leb, ◌==◌, if◌then◌else◌}
use medge_net.Prelude.Int.{ℤ}
use medge_net.Fesl.Validate.{exceeds}
use medge_net.Text.{contains, is_empty}

-- The character class of `safeIDPattern`.
unfoldable pub safe_char : ℕ → Bool
safe_char c =
    leb b'A' c && leb c b'Z'
    || leb b'a' c && leb c b'z'
    || leb b'0' c && leb c b'9'
    || c == b'_'
    || c == b'.'
    || c == b' '
    || c == b'-'

-- `^[A-Za-z0-9_. -]+$` on the whole value; the class is ASCII, so bytes serve for runes.
unfoldable pub matches_safe_id : Bytes → Bool
unfolding safe_char
matches_safe_id [] = false
matches_safe_id (c ∷ []) = safe_char c
matches_safe_id (c ∷ d ∷ s) = safe_char c && matches_safe_id (d ∷ s)

unfoldable pub safe_identifier : ℤ → Bytes → Bool
unfolding matches_safe_id
safe_identifier max_identifier_length value =
    if is_empty value || exceeds (length value) max_identifier_length
    then false
    else if contains value (b'/' ∷ [])
        || contains value (b'\\' ∷ [])
        || contains value (0 ∷ [])
        || contains value (b'.' ∷ b'.' ∷ [])
    then false
    else matches_safe_id value
