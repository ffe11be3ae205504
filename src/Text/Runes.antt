-- ===== src/Text/Runes.antt =====
-- `for _, r := range s` and `strings.TrimSpace`: Go's UTF-8 decoding of a byte string. A byte that
-- starts no valid sequence is the rune U+FFFD.
pub mod Bytewise
pub mod Trimmed
use medge_net.Prelude.{
  ℕ, zero, suc, ◌+◌, ◌-◌, ◌*◌, Bool, true, false, ◌&&◌, ◌||◌, List, [], ◌∷◌, Bytes, ltb, leb, ◌==◌,
  if◌then◌else◌,
}

abbrev within : ℕ → ℕ → ℕ → Bool
within lo hi c = if ltb c lo then false else leb c hi

-- A rune, and the number of bytes behind the first that belong to it.
pub record Rune : Type 0 where
  pub code : ℕ
  pub extra : ℕ

abbrev invalid : Rune
invalid = record { code = 0xfffd; extra = 0 }

two : ℕ → Bytes → Rune
two c (x ∷ s) =
    if within 0x80 0xbf x
    then record { code = (c - 0xc0) * 64 + (x - 0x80); extra = 1 }
    else invalid
two c _ = invalid

-- The first continuation byte of a three-byte sequence: no overlong form and no surrogate.
second_of_three : ℕ → ℕ → Bool
second_of_three c x =
    if c == 0xe0
    then within 0xa0 0xbf x
    else if c == 0xed
    then within 0x80 0x9f x
    else within 0x80 0xbf x

three : ℕ → Bytes → Rune
unfolding second_of_three
three c (x ∷ y ∷ s) =
    if second_of_three c x && within 0x80 0xbf y
    then record { code = (c - 0xe0) * 4096 + (x - 0x80) * 64 + (y - 0x80); extra = 2 }
    else invalid
three c _ = invalid

second_of_four : ℕ → ℕ → Bool
second_of_four c x =
    if c == 0xf0
    then within 0x90 0xbf x
    else if c == 0xf4
    then within 0x80 0x8f x
    else within 0x80 0xbf x

four : ℕ → Bytes → Rune
unfolding second_of_four
four c (x ∷ y ∷ z ∷ s) =
    if second_of_four c x && within 0x80 0xbf y && within 0x80 0xbf z
    then record {
      code = (c - 0xf0) * 262144 + (x - 0x80) * 4096 + (y - 0x80) * 64 + (z - 0x80);
      extra = 3;
    }
    else invalid
four c _ = invalid

-- The rune that begins with byte `c` in front of `s`.
unfoldable pub decode_rune : ℕ → Bytes → Rune
unfolding two three four
decode_rune c s =
    if ltb c 0x80
    then record { code = c; extra = 0 }
    else if within 0xc2 0xdf c
    then two c s
    else if within 0xe0 0xef c
    then three c s
    else if within 0xf0 0xf4 c
    then four c s
    else invalid

-- The first argument counts bytes of the last rune that are still to be passed over.
runes_from : ℕ → Bytes → List ℕ
unfolding decode_rune
runes_from k [] = []
runes_from (suc k) (c ∷ s) = runes_from k s
runes_from zero (c ∷ s) = let r = decode_rune c s in r.code ∷ runes_from r.extra s

unfoldable pub runes : Bytes → List ℕ
unfolding runes_from
runes = runes_from 0

-- `unicode.IsSpace`.
is_space : ℕ → Bool
is_space r =
    within 9 13 r
    || r == 0x20
    || r == 0x85
    || r == 0xa0
    || r == 0x1680
    || within 0x2000 0x200a r
    || r == 0x2028
    || r == 0x2029
    || r == 0x202f
    || r == 0x205f
    || r == 0x3000

all_space : List ℕ → Bool
all_space [] = true
all_space (r ∷ rs) = is_space r && all_space rs

trim_left_from : ℕ → Bytes → Bytes
unfolding decode_rune is_space
trim_left_from k [] = []
trim_left_from (suc k) (c ∷ s) = trim_left_from k s
trim_left_from zero (c ∷ s) =
    let r = decode_rune c s in
    let rest = trim_left_from r.extra s in if is_space r.code then rest else c ∷ s

trim_end_from : ℕ → Bytes → Bytes
unfolding runes decode_rune all_space is_space
trim_end_from k [] = []
trim_end_from (suc k) (c ∷ s) = c ∷ trim_end_from k s
trim_end_from zero (c ∷ s) =
    let rest = trim_end_from (decode_rune c s).extra s in
    if all_space (runes (c ∷ s)) then [] else c ∷ rest

unfoldable pub trim_space : Bytes → Bytes
unfolding trim_left_from trim_end_from
trim_space s = trim_end_from 0 (trim_left_from 0 s)
