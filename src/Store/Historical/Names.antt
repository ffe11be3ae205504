-- ===== src/Store/Historical/Names.antt =====
-- `SanitizeHistoricalName`: what of a historical player's name is shown.
pub mod Shown
use medge_net.Prelude.{
  ℕ, zero, suc, Bool, ◌||◌, List, [], ◌∷◌, Bytes, codes, ltb, ◌==◌, if◌then◌else◌,
}
use medge_net.Text.{is_empty}
use medge_net.Text.Runes.{runes, trim_space}

abbrev pub max_historical_name_len : ℕ
max_historical_name_len = 31

-- Runes that are left out: all but printable ASCII, and `=`.
unfoldable pub is_dropped : ℕ → Bool
is_dropped r = ltb r 0x20 || ltb 0x7e r || r == b'='

-- The loop, while `room` bytes are free.
unfoldable pub kept_runes : ℕ → List ℕ → Bytes
unfolding is_dropped
kept_runes room [] = []
kept_runes zero (r ∷ rs) = []
kept_runes (suc room) (r ∷ rs) =
    let rest = kept_runes room rs in
    let without = kept_runes (suc room) rs in if is_dropped r then without else r ∷ rest

unfoldable pub sanitize_historical_name : Bytes → Bytes
unfolding kept_runes
sanitize_historical_name name =
    let out = trim_space (kept_runes max_historical_name_len (runes (trim_space name))) in
    if is_empty out then codes "SRC Runner" else out
