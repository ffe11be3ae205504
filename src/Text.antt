-- ===== src/Text.antt =====
-- Go's `strings` functions that the server calls, over byte strings.
pub mod Lines
pub mod Number
pub mod Runes
use medge_net.Prelude.{
  ℕ, Bool, ◌&&◌, ◌||◌, false, true, List, [], ◌∷◌, ◌++◌, Option, none, some, Bytes, ◌==◌, equal,
  if◌then◌else◌,
}

module _ {ℓ κ} {A : Type ℓ} {B : Type κ} where
  unfoldable pub Option_map : (A → B) → Option A → Option B
  Option_map f none = none
  Option_map f (some a) = some (f a)

abbrev pub is_empty {ℓ} : {A : Type ℓ} → List A → Bool
is_empty [] = true
is_empty (_ ∷ _) = false

-- The first part with one more byte in front of it.
unfoldable pub cons_head : ℕ → List Bytes → List Bytes
cons_head c [] = (c ∷ []) ∷ []
cons_head c (p ∷ ps) = (c ∷ p) ∷ ps

-- `strings.Split` at one byte.
unfoldable pub split : ℕ → Bytes → List Bytes
unfolding cons_head
split sep [] = [] ∷ []
split sep (c ∷ s) = let rest = split sep s in if c == sep then [] ∷ rest else cons_head c rest

-- `strings.Cut` at one byte; `none` where it is not found.
unfoldable pub cut : ℕ → Bytes → Option (Bytes × Bytes)
unfolding Option_map
cut sep [] = none
cut sep (c ∷ s) =
    let rest = cut sep s in
    if c == sep then some ([], s) else Option_map (λ (p : Bytes × Bytes). (c ∷ p.0, p.1)) rest

-- `strings.TrimRight` with a one-byte cutset.
unfoldable pub trim_right : ℕ → Bytes → Bytes
trim_right b [] = []
trim_right b (c ∷ s) = let rest = trim_right b s in if c == b && is_empty rest then [] else c ∷ rest

-- `strings.TrimLeft` with a one-byte cutset.
unfoldable pub trim_left : ℕ → Bytes → Bytes
trim_left b [] = []
trim_left b (c ∷ s) = let rest = trim_left b s in if c == b then rest else c ∷ s

-- `strings.HasPrefix`.
unfoldable pub has_prefix : Bytes → Bytes → Bool
has_prefix s [] = true
has_prefix [] (p ∷ ps) = false
has_prefix (c ∷ s) (p ∷ ps) = c == p && has_prefix s ps

-- `strings.HasSuffix`.
unfoldable pub has_suffix : Bytes → Bytes → Bool
unfolding equal
has_suffix [] t = is_empty t
has_suffix (c ∷ s) t = equal (c ∷ s) t || has_suffix s t

-- `strings.Contains`.
unfoldable pub contains : Bytes → Bytes → Bool
unfolding has_prefix
contains [] t = is_empty t
contains (c ∷ s) t = has_prefix (c ∷ s) t || contains s t
