-- ===== src/Store/Tokens/Format.antt =====
-- `generateLoginToken`: the tokens that are made are tokens that `validLoginToken` accepts.
use medge_net.Prelude.{
  ℕ, ◌+◌, ◌*◌, ◌/◌, ◌%◌, ◌≤◌, ◌<◌, ◌≡◌, refl, Bool, true, false, not, ◌||◌, List, [], ◌∷◌, Bytes,
  All, arith, length, ltb,
}
use medge_net.Text.Runes.{runes}
use medge_net.Text.Runes.Bytewise.{any, any-runes_unsafe}
use medge_net.Store.Tokens.{base64_char, base64_url, dot_padding, token_runes, valid_login_token}

abbrev IsPrintable : ℕ → Type 0
IsPrintable c = (0x21 ≤ c) × (c ≤ 0x7e)

abbrev unprintable : ℕ → Bool
unprintable r = ltb r 0x21 || ltb 0x7e r

base64_char-IsPrintable : (n : ℕ) → IsPrintable (base64_char n)
unfolding base64_char
base64_char-IsPrintable n = ground arith

base64_url-IsPrintable : (s : Bytes) → All IsPrintable (base64_url s)
unfolding base64_url
base64_url-IsPrintable [] = tt
base64_url-IsPrintable (a ∷ []) = (
  base64_char-IsPrintable (a / 4),
  (base64_char-IsPrintable (a % 4 * 16), (ground arith, (ground arith, tt))),
)
base64_url-IsPrintable (a ∷ b ∷ []) = (
  base64_char-IsPrintable (a / 4),
  (
    base64_char-IsPrintable (a % 4 * 16 + b / 16),
    (base64_char-IsPrintable (b % 16 * 4), (ground arith, tt)),
  ),
)
base64_url-IsPrintable (a ∷ b ∷ c ∷ s) = (
  base64_char-IsPrintable (a / 4),
  (
    base64_char-IsPrintable (a % 4 * 16 + b / 16),
    (
      base64_char-IsPrintable (b % 16 * 4 + c / 64),
      (base64_char-IsPrintable (c % 64), base64_url-IsPrintable s),
    ),
  ),
)

dot_padding-IsPrintable : (s : Bytes) → All IsPrintable s → All IsPrintable (dot_padding s)
unfolding dot_padding
dot_padding-IsPrintable [] h = tt
dot_padding-IsPrintable (c ∷ s) h = (ground arith, dot_padding-IsPrintable s h.1)

token_runes-any : (rs : List ℕ) → token_runes rs ≡ not (any unprintable rs)
unfolding token_runes any
token_runes-any [] = refl
token_runes-any (r ∷ rs) = ground (arith, token_runes-any rs)

any_printable : (s : Bytes) → All IsPrintable s → any unprintable s ≡ false
unfolding any
any_printable [] h = refl
any_printable (c ∷ s) h = ground (arith, any_printable s h.1)

-- Four characters for three bytes.
length-base64_url : (s : Bytes) → length (base64_url s) * 3 ≤ length s * 4 + 8
unfolding base64_url
length-base64_url [] = omega arith
length-base64_url (a ∷ []) = omega arith
length-base64_url (a ∷ b ∷ []) = omega arith
length-base64_url (a ∷ b ∷ c ∷ s) = omega (arith, length-base64_url s)

base64_url_nonempty : (s : Bytes) → 0 < length s → 0 < length (base64_url s)
unfolding base64_url
base64_url_nonempty [] h = h
base64_url_nonempty (a ∷ []) h = omega arith
base64_url_nonempty (a ∷ b ∷ []) h = omega arith
base64_url_nonempty (a ∷ b ∷ c ∷ s) h = omega arith

length-dot_padding : (s : Bytes) → length (dot_padding s) ≡ length s
unfolding dot_padding
length-dot_padding [] = refl
length-dot_padding (c ∷ s) = omega (arith, length-dot_padding s)

fits :
    (token : Bytes)
    → 0 < length token
    → length token ≤ 256
    → token_runes (runes token) ≡ true
    → valid_login_token token ≡ true
unfolding valid_login_token
fits token h h' e = ground arith

-- Whatever random bytes a token is made of, 190 at most and not none, `validLoginToken` accepts it.
pub valid_login_token-base64 :
    (s : Bytes)
    → 0 < length s
    → length s ≤ 190
    → valid_login_token (dot_padding (base64_url s)) ≡ true
valid_login_token-base64 s h h' =
    let token = dot_padding (base64_url s) in
    fits token (rw length-dot_padding (base64_url_nonempty s h))
      (rw length-dot_padding (omega (arith, length-base64_url s)))
      (rw (
        token_runes-any,
        any-runes_unsafe unprintable token (λ r h. ground arith),
        any_printable token (dot_padding-IsPrintable (base64_url s) (base64_url-IsPrintable s)),
      ))
