-- ===== src/Text/Lines.antt =====
-- Laws of splitting, cutting and trimming.
use medge_net.Prelude.{ℕ, ◌≢◌, ◌≡◌, refl, [], ◌∷◌, ◌++◌, some, Bytes, All, arith}
use medge_net.Text.{split, cut, trim_right}

abbrev pub Lacks : ℕ → Bytes → Type 0
Lacks b = All (λ c. c ≢ b)

pub split-append :
    (sep : ℕ) (l rest : Bytes) → Lacks sep l → split sep (l ++ sep ∷ rest) ≡ l ∷ split sep rest
unfolding split
split-append sep [] rest h = ground arith
split-append sep (c ∷ l) rest h = ground (arith, split-append sep l rest h.1)

pub cut-append :
    (sep : ℕ) (l rest : Bytes) → Lacks sep l → cut sep (l ++ sep ∷ rest) ≡ some (l, rest)
unfolding cut
cut-append sep [] rest h = ground arith
cut-append sep (c ∷ l) rest h = ground (arith, cut-append sep l rest h.1)

-- A byte that is not cut off keeps everything before it.
pub trim_right-append :
    (b : ℕ) (l : Bytes) (c : ℕ) (rest : Bytes)
    → c ≢ b
    → trim_right b (l ++ c ∷ rest) ≡ l ++ c ∷ trim_right b rest
unfolding trim_right
trim_right-append b [] c rest h = ground arith
trim_right-append b (x ∷ []) c rest h = ground arith
trim_right-append b (x ∷ y ∷ l) c rest h = ground (arith, trim_right-append b (y ∷ l) c rest)

-- Padding is cut off.
pub trim_right_padding :
    (b : ℕ) (l pad : Bytes) → All (λ c. c ≡ b) pad → trim_right b (l ++ pad) ≡ trim_right b l
unfolding trim_right
trim_right_padding b [] [] h = refl
trim_right_padding b [] (p ∷ pad) h = ground (arith, trim_right_padding b [] pad h.1)
trim_right_padding b (x ∷ l) pad h = ground (arith, trim_right_padding b l pad h)

pub split_one : (sep : ℕ) (l : Bytes) → Lacks sep l → split sep l ≡ l ∷ []
unfolding split
split_one sep [] h = refl
split_one sep (c ∷ l) h = ground (arith, split_one sep l h.1)
