-- ===== src/Text/Runes/Trimmed.antt =====
-- What `strings.TrimSpace` leaves is part of what it was given.
use medge_net.Prelude.{ℕ, zero, suc, ◌≤◌, [], ◌∷◌, Bytes, All, length, arith, inl, inr, Bool-cases}
use medge_net.Text.Runes.{
  decode_rune, is_space, all_space, runes, trim_left_from, trim_end_from, trim_space,
}

module _ {κ} (P : ℕ → Type κ) where
  left_lem :
      (k : ℕ) (s : Bytes)
      → All P s
      → All P (trim_left_from k s) × (length (trim_left_from k s) ≤ length s)
  unfolding trim_left_from
  left_lem k [] h = (tt, omega arith)
  left_lem (suc k) (c ∷ s) h = let (rest, short) = left_lem k s h.1 in (rest, omega (arith, short))
  left_lem zero (c ∷ s) h =
      let ih = left_lem (decode_rune c s).extra s h.1 in
      elim (Bool-cases (is_space (decode_rune c s).code)) [
        | inl e ↦ rw e (ih.0, omega (arith, ih.1))
        | inr e ↦ rw e (h, omega arith)
      ]

  end_lem :
      (k : ℕ) (s : Bytes)
      → All P s
      → All P (trim_end_from k s) × (length (trim_end_from k s) ≤ length s)
  unfolding trim_end_from
  end_lem k [] h = (tt, omega arith)
  end_lem (suc k) (c ∷ s) h =
      let (rest, short) = end_lem k s h.1 in ((h.0, rest), omega (arith, short))
  end_lem zero (c ∷ s) h =
      let ih = end_lem (decode_rune c s).extra s h.1 in
      elim (Bool-cases (all_space (runes (c ∷ s)))) [
        | inl e ↦ rw e (tt, omega arith)
        | inr e ↦ rw e ((h.0, ih.0), omega (arith, ih.1))
      ]

  pub trim_space-All :
      (s : Bytes) → All P s → All P (trim_space s) × (length (trim_space s) ≤ length s)
  unfolding trim_space
  trim_space-All s h =
      let (left, short) = left_lem 0 s h in
      let (right, shorter) = end_lem 0 (trim_left_from 0 s) left in
      (right, omega (arith, short, shorter))
