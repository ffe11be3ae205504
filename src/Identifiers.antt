-- ===== src/Identifiers.antt =====
-- The two identifier checks of the server, fesl's on persona names and locker's on file names.
use medge_net.Prelude.{ℕ, ◌<◌, ◌≡◌, refl, true, false, not, [], ◌∷◌, Bytes, All, arith, ◌≢◌}
use medge_net.Prelude.Int.{pos}
use medge_net.Text.{contains}
use medge_net.Text.Runes.{trim_space}
use medge_net.Fesl.Validate.{accepted, validate_persona_name}
use medge_net.Fesl.Validate.Accepts.{name_char, validate_persona_name_iff, Fits}
use medge_net.Locker.Identifier.{safe_char, matches_safe_id, safe_identifier}

name_char-safe_char : (c : ℕ) → name_char c ≡ true → safe_char c ≡ true
unfolding name_char safe_char
name_char-safe_char c h = ground arith

-- None of the characters of a name is one that the locker looks for by itself.
name_char_ne : (c : ℕ) → name_char c ≡ true → (c ≢ b'/') × (c ≢ b'\\') × (c ≢ 0)
unfolding name_char
name_char_ne c h = ground arith

contains_absent : (b : ℕ) (s : Bytes) → All (λ c. c ≢ b) s → contains s (b ∷ []) ≡ false
unfolding contains
contains_absent b [] h = refl
contains_absent b (c ∷ s) h = ground (arith, contains_absent b s h.1)

All-map {ℓ} : (P Q : ℕ → Type ℓ) (s : Bytes) → ((c : ℕ) → P c → Q c) → All P s → All Q s
All-map P Q [] f h = tt
All-map P Q (c ∷ s) f h = (f c h.0, All-map P Q s f h.1)

matches_safe_id-name_char :
    (c : ℕ) (s : Bytes) → All (λ c. name_char c ≡ true) (c ∷ s) → matches_safe_id (c ∷ s) ≡ true
unfolding matches_safe_id
matches_safe_id-name_char c [] h = name_char-safe_char c h.0
matches_safe_id-name_char c (d ∷ s) h =
    ground (arith, name_char-safe_char c, matches_safe_id-name_char d s h.1)

safe_identifier_lem :
    (c : ℕ) (s : Bytes) (m : ℕ)
    → 0 < m
    → Fits (pos m) (c ∷ s)
    → All (λ x. name_char x ≡ true) (c ∷ s)
    → safe_identifier (pos m) (c ∷ s) ≡ not (contains (c ∷ s) (b'.' ∷ b'.' ∷ []))
unfolding safe_identifier
safe_identifier_lem c s m h fits name =
    let v = c ∷ s in
    ground (
      arith,
      contains_absent b'/' v (All-map _ _ v (λ x e. (name_char_ne x e).0) name),
      contains_absent b'\\' v (All-map _ _ v (λ x e. (name_char_ne x e).1) name),
      contains_absent 0 v (All-map _ _ v (λ x e. (name_char_ne x e).2) name),
      matches_safe_id-name_char c s name,
    )

-- A persona name that the account service accepts under a positive length limit is accepted by the
-- file locker, under the same limit, exactly when it does not contain `..`.
pub safe_identifier-persona_name :
    (value : Bytes) (m : ℕ)
    → 0 < m
    → validate_persona_name value (pos m) ≡ accepted
    → safe_identifier (pos m) value ≡ not (contains value (b'.' ∷ b'.' ∷ []))
unfolding trim_space
safe_identifier-persona_name [] m h e = cc ((validate_persona_name_iff [] (pos m)).0 e).0
safe_identifier-persona_name (c ∷ s) m h e =
    let (_, fits, name) = (validate_persona_name_iff (c ∷ s) (pos m)).0 e in
    safe_identifier_lem c s m h fits name
