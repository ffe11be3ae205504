-- ===== src/Text/Runes/Bytewise.antt =====
-- A test of all runes, read as a test of all bytes.
use medge_net.Prelude.{
  ℕ, zero, suc, ◌≤◌, ◌<◌, ◌≡◌, refl, List, [], ◌∷◌, Bytes, arith, Bool, true, false, ltb,
  if◌then◌else◌,
}
use medge_net.Text.Runes.{Rune, decode_rune, runes_from, runes}

-- The bytes that a rune takes behind its first are there, and none of them is ASCII.
abbrev Skips : ℕ → Bytes → Type 0
Skips zero s = Unit
Skips (suc k) [] = ⊥
Skips (suc k) (c ∷ s) = (0x80 ≤ c) × Skips k s

decode_rune-Skips : (c : ℕ) (s : Bytes) → Skips (decode_rune c s).extra s
unfolding decode_rune
decode_rune-Skips c [] = ground arith
decode_rune-Skips c (x ∷ []) = ground arith
decode_rune-Skips c (x ∷ y ∷ []) = ground arith
decode_rune-Skips c (x ∷ y ∷ z ∷ s) = ground arith

-- The rune of a byte outside ASCII is outside ASCII, and an ASCII byte is its own rune.
decode_rune_code :
    (c : ℕ) (s : Bytes)
    → (c < 0x80 → (decode_rune c s).code ≡ c) × (0x80 ≤ c → 0x80 ≤ (decode_rune c s).code)
unfolding decode_rune
decode_rune_code c [] = ground arith
decode_rune_code c (x ∷ []) = ground arith
decode_rune_code c (x ∷ y ∷ []) = ground arith
decode_rune_code c (x ∷ y ∷ z ∷ s) = ground arith

decode_rune_extra : (c : ℕ) (s : Bytes) → c < 0x80 → (decode_rune c s).extra ≡ 0
unfolding decode_rune
decode_rune_extra c s h = ground arith

-- Some element passes the test.
unfoldable pub any : (ℕ → Bool) → List ℕ → Bool
any f [] = false
any f (x ∷ xs) = if f x then true else any f xs

-- Where the test fails on all that is not ASCII, it may be made on bytes.
any_from :
    (f : ℕ → Bool) (s : Bytes) (k : ℕ)
    → ((r : ℕ) → 0x80 ≤ r → f r ≡ false)
    → Skips k s
    → any f (runes_from k s) ≡ any f s
unfolding any runes_from
any_from f [] k h w = refl
any_from f (c ∷ s) (suc k) h w = ground (arith, h c, any_from f s k h w.1)
any_from f (c ∷ s) zero h w =
    let r = decode_rune c s in
    ground
      (arith, h c, h r.code, decode_rune_code c s, any_from f s r.extra h (decode_rune-Skips c s))

pub any-runes :
    (f : ℕ → Bool) (s : Bytes) → ((r : ℕ) → 0x80 ≤ r → f r ≡ false) → any f (runes s) ≡ any f s
unfolding runes
any-runes f s h = any_from f s 0 h tt

any_true_step :
    (f : ℕ → Bool) (c : ℕ) (r : Rune) (u v : Bool)
    → (c < 0x80 → r.code ≡ c) × (0x80 ≤ c → 0x80 ≤ r.code)
    → (c < 0x80 → r.extra ≡ 0)
    → (0x80 ≤ c → f c ≡ true)
    → (0x80 ≤ r.code → f r.code ≡ true)
    → (if ltb 0 r.extra then true else u) ≡ (if ltb 0 r.extra then true else v)
    → (if f r.code then true else u) ≡ (if f c then true else v)
any_true_step f c r u v hc he h h' e = ground arith

-- Where it passes on all that is not ASCII, likewise.
any-true_from :
    (f : ℕ → Bool) (s : Bytes)
    → (k : ℕ) → ((r : ℕ) → 0x80 ≤ r → f r ≡ true)
    → Skips k s
    → (if ltb 0 k then true else any f (runes_from k s)) ≡ (if ltb 0 k then true else any f s)
unfolding any runes_from
any-true_from f [] k h w = ground arith
any-true_from f (c ∷ s) (suc k) h w = ground arith
any-true_from f (c ∷ s) zero h w =
    let r = decode_rune c s in
    any_true_step f c r (any f (runes_from r.extra s)) (any f s) (decode_rune_code c s)
      (decode_rune_extra c s) (h c) (h r.code) (any-true_from f s r.extra h (decode_rune-Skips c s))

pub any-runes_unsafe :
    (f : ℕ → Bool) (s : Bytes) → ((r : ℕ) → 0x80 ≤ r → f r ≡ true) → any f (runes s) ≡ any f s
unfolding runes
any-runes_unsafe f s h = any-true_from f s 0 h tt
