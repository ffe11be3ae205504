-- ===== src/Store/Keys.antt =====
-- Unique columns of a table.
use medge_net.Prelude.{
  ℕ, ◌+◌, ◌≤◌, ◌≡◌, ◌≢◌, refl, sym, Bool, true, false, List, [], ◌∷◌, ◌++◌, map, none, some, All,
  arith, Bool-cases, inl, inr,
}
use medge_net.Prelude.Int.{ℤ, pos, negsuc}
use medge_net.Store.{top_id, next_id, find, select, put}

-- No two rows agree in the column.
abbrev pub Distinct {ℓ κ} : {A : Type ℓ} {K : Type κ} → (A → K) → List A → Type (ℓ ⊔ κ)
Distinct f [] = Unit
Distinct f (x ∷ xs) = All (λ y. f x ≢ f y) xs × Distinct f xs

All-snoc {ℓ κ} :
    {A : Type ℓ} (P : A → Type κ) (xs : List A) (x : A) → All P xs → P x → All P (xs ++ x ∷ [])
All-snoc P [] x h p = (p, tt)
All-snoc P (y ∷ xs) x h p = (h.0, All-snoc P xs x h.1 p)

-- A new row whose key no row has.
pub Distinct-snoc {ℓ κ} :
    {A : Type ℓ} {K : Type κ} (f : A → K) (xs : List A) (x : A)
    → Distinct f xs
    → All (λ y. f y ≢ f x) xs
    → Distinct f (xs ++ x ∷ [])
Distinct-snoc f [] x d h = (tt, tt)
Distinct-snoc f (y ∷ xs) x d h =
    (All-snoc (λ z. f y ≢ f z) xs x d.0 h.0, Distinct-snoc f xs x d.1 h.1)

pub All-select {ℓ κ} :
    {A : Type ℓ} (P : A → Type κ) (p : A → Bool) (xs : List A) → All P xs → All P (select p xs)
unfolding select
All-select P p [] h = tt
All-select P p (x ∷ xs) h = elim (Bool-cases (p x)) [
  | inl e ↦ rw e (h.0, All-select P p xs h.1)
  | inr e ↦ rw e (All-select P p xs h.1)
]

-- Rows that are deleted make no key a duplicate.
pub Distinct-select {ℓ κ} :
    {A : Type ℓ} {K : Type κ} (f : A → K) (p : A → Bool) (xs : List A)
    → Distinct f xs
    → Distinct f (select p xs)
unfolding select
Distinct-select f p [] d = tt
Distinct-select f p (x ∷ xs) d = elim (Bool-cases (p x)) [
  | inl e ↦ rw e (All-select (λ y. f x ≢ f y) p xs d.0, Distinct-select f p xs d.1)
  | inr e ↦ rw e (Distinct-select f p xs d.1)
]

-- A row that replaces the one in conflict with it, or comes last.
module _ {ℓ κ} {A : Type ℓ} {K : Type κ} (f : A → K) (p : A → Bool) (row : A)
    (same : (x : A) → p x ≡ true → f x ≡ f row) (other : (x : A) → p x ≡ false → f x ≢ f row) where
  All-put :
      (k : K) (xs : List A) → All (λ y. k ≢ f y) xs → k ≢ f row → All (λ y. k ≢ f y) (put p row xs)
  unfolding put
  All-put k [] h n = (n, tt)
  All-put k (x ∷ xs) h n = elim (Bool-cases (p x)) [
    | inl e ↦ rw e (n, h.1)
    | inr e ↦ rw e (h.0, All-put k xs h.1 n)
  ]

  pub Distinct-put : (xs : List A) → Distinct f xs → Distinct f (put p row xs)
  unfolding put
  Distinct-put [] d = (tt, tt)
  Distinct-put (x ∷ xs) d = elim (Bool-cases (p x)) [
    | inl e ↦ rw e (rw (sym (same x e)) d.0, d.1)
    | inr e ↦ rw e (All-put (f x) xs d.0 (other x e), Distinct-put xs d.1)
  ]

-- What a search does not find is no row.
pub find-eq-none {ℓ κ} :
    {A : Type ℓ} {P : A → Type κ} (p : A → Bool) (xs : List A)
    → ((x : A) → p x ≡ false → P x)
    → find p xs ≡ none
    → All P xs
unfolding find
find-eq-none p [] h e = tt
find-eq-none p (x ∷ xs) h e = elim (Bool-cases (p x)) [
  | inl t ↦ absurd (cc (rw (t, find) at e))
  | inr t ↦ (h x t, find-eq-none p xs h (rw t at e))
]

-- What it finds passes the test.
pub find-eq-some {ℓ} :
    {A : Type ℓ} (p : A → Bool) (xs : List A) (a : A) → find p xs ≡ some a → p a ≡ true
unfolding find
find-eq-some p [] a e = absurd (cc)
find-eq-some p (x ∷ xs) a e = ground (arith, find-eq-some p xs a)

top_id_bound : (ids : List ℤ) (n : ℕ) → top_id ids ≤ n → All (λ i. i ≢ pos (n + 1)) ids
unfolding top_id
top_id_bound [] n h = tt
top_id_bound (pos m ∷ ids) n h = (ground arith, top_id_bound ids n (ground arith))
top_id_bound (negsuc m ∷ ids) n h = (cc, top_id_bound ids n h)

All-map {ℓ κ μ} :
    {A : Type ℓ} {B : Type κ} (P : B → Type μ) (f : A → B) (xs : List A)
    → All P (map f xs)
    → All (λ x. P (f x)) xs
All-map P f [] h = tt
All-map P f (x ∷ xs) h = (h.0, All-map P f xs h.1)

-- A fresh id is the id of no row.
pub next_id_fresh {ℓ} :
    {A : Type ℓ} (f : A → ℤ) (xs : List A) → All (λ x. f x ≢ next_id (map f xs)) xs
unfolding next_id
next_id_fresh f xs =
    All-map (λ i. i ≢ next_id (map f xs)) f xs
      (top_id_bound (map f xs) (top_id (map f xs)) (omega arith))

-- What `p` selects is among what `q` selects.
pub select-select {ℓ} :
    {A : Type ℓ} (p q : A → Bool) (xs : List A)
    → ((x : A) → p x ≡ true → q x ≡ true)
    → select p (select q xs) ≡ select p xs
unfolding select
select-select p q [] h = refl
select-select p q (x ∷ xs) h =
    let ih = select-select p q xs h in
    elim (Bool-cases (p x)) [
      | inl e ↦ rw (h x e, e, ih)
      | inr e ↦ elim (Bool-cases (q x)) [ inl e' ↦ rw (e', e, ih) | inr e' ↦ rw (e', e, ih) ]
    ]

pub select-snoc {ℓ} :
    {A : Type ℓ} (p : A → Bool) (x : A) (xs : List A)
    → p x ≡ false
    → select p (xs ++ x ∷ []) ≡ select p xs
unfolding select
select-snoc p x [] e = rw e
select-snoc p x (y ∷ xs) e = rw (select-snoc p x xs e)

-- What holds of every row holds of the one that a search finds.
pub find-All {ℓ κ} :
    {A : Type ℓ} (P : A → Type κ) (p : A → Bool) (xs : List A) (a : A)
    → All P xs
    → find p xs ≡ some a
    → P a
unfolding find
find-All P p [] a h e = absurd (cc)
find-All P p (x ∷ xs) a h e = elim (Bool-cases (p x)) [
  | inl t ↦
      let found : some x ≡ some a = rw (t, find) at e in let same : x ≡ a = cc in rw (sym same) h.0
  | inr t ↦ find-All P p xs a h.1 (rw t at e)
]

-- Two searches that find rows with one key find one row.
pub Distinct-find {ℓ κ} :
    {A : Type ℓ} {K : Type κ} (f : A → K) (p q : A → Bool) (xs : List A) (a b : A)
    → Distinct f xs
    → find p xs ≡ some a
    → find q xs ≡ some b
    → f a ≡ f b
    → a ≡ b
unfolding find
Distinct-find f p q [] a b d ea eb e = absurd (cc)
Distinct-find f p q (x ∷ xs) a b d ea eb e = elim (Bool-cases (p x)) [
  | inl hp ↦
      let fa : some x ≡ some a = rw hp at ea in
      let xa : x ≡ a = cc in
      elim (Bool-cases (q x)) [
        | inl hq ↦ let fb : some x ≡ some b = rw hq at eb in cc
        | inr hq ↦ absurd (find-All (λ y. f x ≢ f y) q xs b d.0 (rw hq at eb) (rw xa e))
      ]
  | inr hp ↦ elim (Bool-cases (q x)) [
    | inl hq ↦
        let fb : some x ≡ some b = rw hq at eb in
        let xb : x ≡ b = cc in
        absurd (find-All (λ y. f x ≢ f y) p xs a d.0 (rw hp at ea) (rw xb (sym e)))
    | inr hq ↦ Distinct-find f p q xs a b d.1 (rw hp at ea) (rw hq at eb) e
  ]
]
