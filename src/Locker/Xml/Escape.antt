-- ===== src/Locker/Xml/Escape.antt =====
-- server/locker/xml.go: `attr`, the escaping of attribute values.
use medge_net.Prelude.{
  ℕ, ◌≡◌, ◌≢◌, refl, Bool, true, false, [], ◌∷◌, ◌++◌, Bytes, All, All-append, codes, ◌==◌,
  if◌then◌else◌, arith, ap, inl, inr, Bool-cases,
}
use medge_net.Locker.Xml.{replace_all, attr}

-- What a single pass puts for a byte.
unfoldable pub escaped : ℕ → Bytes
escaped c =
    if c == b'&'
    then codes "&amp;"
    else if c == b'"'
    then codes "&quot;"
    else if c == b'<'
    then codes "&lt;"
    else if c == b'>'
    then codes "&gt;"
    else c ∷ []

unfoldable pub escape : Bytes → Bytes
unfolding escaped
escape [] = []
escape (c ∷ s) = escaped c ++ escape s

append_assoc : (xs ys zs : Bytes) → xs ++ (ys ++ zs) ≡ (xs ++ ys) ++ zs
append_assoc [] ys zs = refl
append_assoc (x ∷ xs) ys zs = ap (x ∷◌) (append_assoc xs ys zs)

replace_all-append :
    (b : ℕ) (new xs ys : Bytes)
    → replace_all b new (xs ++ ys) ≡ replace_all b new xs ++ replace_all b new ys
unfolding replace_all
replace_all-append b new [] ys = refl
replace_all-append b new (c ∷ xs) ys = elim (Bool-cases (c == b)) [
  | inl e ↦ rw (e, replace_all-append b new xs ys) (append_assoc new _ _)
  | inr e ↦ rw (e, replace_all-append b new xs ys)
]

attr-append : (xs ys : Bytes) → attr (xs ++ ys) ≡ attr xs ++ attr ys
unfolding attr
attr-append xs ys =
    rw (replace_all-append, replace_all-append, replace_all-append, replace_all-append)

attr_one : (c : ℕ) → attr (c ∷ []) ≡ escaped c
unfolding attr escaped replace_all codes
attr_one c = ground arith

attr_nil : attr [] ≡ []
unfolding attr replace_all
attr_nil = refl

-- The four replacements one after the other are one pass over the bytes: none of them escapes what
-- another one wrote.
pub attr-escape : (value : Bytes) → attr value ≡ escape value
unfolding escape
attr-escape [] = attr_nil
attr-escape (c ∷ s) = cc (attr-append (c ∷ []) s, attr_one c, attr-escape s)

-- A byte that can stand in a quoted attribute value.
abbrev pub Quotable : ℕ → Type 0
Quotable c = (c ≢ b'"') × ((c ≢ b'<') × (c ≢ b'>'))

All-if :
    (b : Bool) (xs ys : Bytes)
    → (b ≡ true → All Quotable xs)
    → (b ≡ false → All Quotable ys)
    → All Quotable (if b then xs else ys)
All-if true xs ys h k = h refl
All-if false xs ys h k = k refl

escaped-Quotable : (c : ℕ) → All Quotable (escaped c)
unfolding escaped codes
escaped-Quotable c =
    All-if (c == b'&') _ _ (λ _. ground arith)
      (λ amp.
        All-if (c == b'"') _ _ (λ _. ground arith)
          (λ quot.
            All-if (c == b'<') _ _ (λ _. ground arith)
              (λ lt. All-if (c == b'>') _ _ (λ _. ground arith) (λ gt. ground arith))))

-- No attribute value that is written ends its quotes or opens or closes a tag.
pub attr-Quotable : (value : Bytes) → All Quotable (attr value)
unfolding escape
attr-Quotable [] = rw attr_nil tt
attr-Quotable (c ∷ s) = rw attr-escape (
    All-append Quotable (escaped c) (escape s) (escaped-Quotable c)
      (rw (attr-escape s) at (attr-Quotable s)))
