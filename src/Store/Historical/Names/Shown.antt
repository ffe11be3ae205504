-- ===== src/Store/Historical/Names/Shown.antt =====
-- The names that historical players are shown under.
use medge_net.Prelude.{
  false, ℕ, zero, suc, ◌≤◌, ◌≡◌, ◌≢◌, List, [], ◌∷◌, Bytes, All, codes, length, arith, inl, inr,
  Bool-cases,
}
use medge_net.Store.Historical.Names.{
  is_dropped, kept_runes, max_historical_name_len, sanitize_historical_name,
}
use medge_net.Text.{is_empty}
use medge_net.Text.Runes.{runes, trim_space}
use medge_net.Text.Runes.Trimmed.{trim_space-All}

-- Printable ASCII other than `=`.
abbrev pub IsShown : ℕ → Type 0
IsShown b = (0x20 ≤ b) × (b ≤ 0x7e) × (b ≢ b'=')

shown : (r : ℕ) → is_dropped r ≡ false → IsShown r
unfolding is_dropped
shown r h = (ground arith, ground arith, ground arith)

kept_runes_lem :
    (room : ℕ) (rs : List ℕ)
    → All IsShown (kept_runes room rs) × (length (kept_runes room rs) ≤ room)
unfolding kept_runes
kept_runes_lem room [] = (tt, omega arith)
kept_runes_lem zero (r ∷ rs) = (tt, omega arith)
kept_runes_lem (suc room) (r ∷ rs) = elim (Bool-cases (is_dropped r)) [
  | inl e ↦ rw e (kept_runes_lem (suc room) rs)
  | inr e ↦ let ih = kept_runes_lem room rs in rw e ((shown r e, ih.0), omega (arith, ih.1))
]

nonempty : (out : Bytes) → is_empty out ≡ false → 1 ≤ length out
nonempty [] e = absurd (cc)
nonempty (c ∷ out) e = omega arith

fallback_lem :
    (1 ≤ length (codes "SRC Runner"))
    × (length (codes "SRC Runner") ≤ max_historical_name_len)
    × All IsShown (codes "SRC Runner")
unfolding codes
fallback_lem = ground arith

-- Whatever a historical player is called, the name shown has 1 to 31 bytes, all of them printable ASCII
-- and none of them `=`, so it can stand as a value in a reply.
pub sanitize_historical_name-IsShown :
    (name : Bytes)
    → (1 ≤ length (sanitize_historical_name name))
      × (length (sanitize_historical_name name) ≤ max_historical_name_len)
      × All IsShown (sanitize_historical_name name)
unfolding sanitize_historical_name
sanitize_historical_name-IsShown name =
    let text = kept_runes max_historical_name_len (runes (trim_space name)) in
    let (all, short) = kept_runes_lem max_historical_name_len (runes (trim_space name)) in
    let (shown, shorter) = trim_space-All IsShown text all in
    elim (Bool-cases (is_empty (trim_space text))) [
      | inl e ↦ rw e (fallback_lem)
      | inr e ↦ rw e (nonempty _ e, omega (arith, short, shorter), shown)
    ]
