-- ===== src/Store/Rank/Bound.antt =====
-- Bounding the values before or after the best row of each owner is taken makes no difference to the
-- number of rows.
use medge_net.Prelude.{
  suc, ◌≡◌, ◌≢◌, refl, sym, ap, ◌∙◌, Bool, true, false, ◌||◌, List, [], ◌∷◌, All, length,
  if◌then◌else◌, inl, inr, Bool-cases, arith,
}
use medge_net.Prelude.Int.{ℤ, ◌==ℤ◌, ==ℤ_iff}
use medge_net.Float.{Float64}
use medge_net.Store.{select}
use medge_net.Store.Keys.{Distinct, All-select}
use medge_net.Store.Rank.{Time, is_before, add_best, best}
use medge_net.Store.Rank.Best.{before_value, not_before_value, best-Distinct}
use medge_net.Store.Stats.Scope.{sql_at_most}

above :
    (a b : Time) (bound : Float64)
    → sql_at_most a.value bound ≡ false
    → is_before b a ≡ false
    → sql_at_most b.value bound ≡ false
above a b bound h n = ground (arith, not_before_value b a n)

below :
    (a b : Time) (bound : Float64)
    → sql_at_most a.value bound ≡ true
    → is_before b a ≡ true
    → sql_at_most b.value bound ≡ true
below a b bound h n = ground (arith, before_value b a n)

module _ {ℓ} {A : Type ℓ} (time : A → Time) where
  abbrev owner : A → ℤ
  owner x = (time x).owner_id

  -- Whether an owner has a row.
  unfoldable has : ℤ → List A → Bool
  has k [] = false
  has k (x ∷ xs) = owner x ==ℤ k || has k xs

  -- The same owners, and as many rows.
  record Agree (xs ys : List A) : Type 0 where
    same : (k : ℤ) → has k xs ≡ has k ys
    size : length xs ≡ length ys

  Agree-trans : (xs ys zs : List A) → Agree xs ys → Agree ys zs → Agree xs zs
  Agree-trans xs ys zs a b = record { same = λ k. a.same k ∙ b.same k; size = a.size ∙ b.size }

  Agree-sym : (xs ys : List A) → Agree xs ys → Agree ys xs
  Agree-sym xs ys a = record { same = λ k. sym (a.same k); size = sym a.size }

  has-add_best :
      (k : ℤ) (x : A) (ys : List A) → has k (add_best time x ys) ≡ (owner x ==ℤ k || has k ys)
  unfolding has add_best
  has-add_best k x [] = refl
  has-add_best k x (y ∷ ys) = elim (Bool-cases (owner y ==ℤ owner x)) [
    | inl e ↦ elim (Bool-cases (is_before (time y) (time x))) [
      | inl b ↦ rw (e, b, sym ((==ℤ_iff (owner y) (owner x)).0 e)) (ground arith)
      | inr b ↦ rw (e, b, sym ((==ℤ_iff (owner y) (owner x)).0 e)) (ground arith)
    ]
    | inr e ↦ rw (e, has-add_best k x ys) (ground arith)
  ]

  length-add_best :
      (x : A) (ys : List A)
      → length (add_best time x ys) ≡ (if has (owner x) ys then length ys else suc (length ys))
  unfolding has add_best
  length-add_best x [] = refl
  length-add_best x (y ∷ ys) = elim (Bool-cases (owner y ==ℤ owner x)) [
    | inl e ↦ elim (Bool-cases (is_before (time y) (time x))) [
      | inl b ↦ rw (e, b) refl
      | inr b ↦ rw (e, b) refl
    ]
    | inr e ↦ rw (e, length-add_best x ys) (ground arith)
  ]

  add_best-Agree :
      (x : A) (xs ys : List A) → Agree xs ys → Agree (add_best time x xs) (add_best time x ys)
  add_best-Agree x xs ys a = record {
    same = λ k. has-add_best k x xs ∙ rw (a.same k) (sym (has-add_best k x ys));
    size = length-add_best x xs ∙ rw (a.same (owner x), a.size) (sym (length-add_best x ys));
  }

  Agree-refl : (xs : List A) → Agree xs xs
  Agree-refl xs = record { same = λ k. refl; size = refl }

  Agree-cons : (x : A) (xs ys : List A) → Agree xs ys → Agree (x ∷ xs) (x ∷ ys)
  unfolding has
  Agree-cons x xs ys a = record {
    same = λ k. ap (◌||◌ (owner x ==ℤ k)) (a.same k);
    size = ap suc a.size;
  }

  -- An owner that no row names is not there.
  has_none : (k : ℤ) (xs : List A) → All (λ y. k ≢ owner y) xs → has k xs ≡ false
  unfolding has
  has_none k [] h = refl
  has_none k (x ∷ xs) h = ground (arith, ==ℤ_iff (owner x) k, has_none k xs h.1, h.0)

  module _ (bound : Float64) where
    abbrev le : A → Bool
    le x = sql_at_most (time x).value bound

    -- A row above the bound changes no row below it.
    above_lem : (x : A) (ys : List A) → le x ≡ false → select le (add_best time x ys) ≡ select le ys
    unfolding add_best select
    above_lem x [] h = rw h
    above_lem x (y ∷ ys) h = elim (Bool-cases (owner y ==ℤ owner x)) [
      | inl e ↦ elim (Bool-cases (is_before (time y) (time x))) [
        | inl b ↦ rw (e, b)
        | inr b ↦ rw (e, b, h, above (time x) (time y) bound h b)
      ]
      | inr e ↦ rw (e, above_lem x ys h)
    ]

    fresh_lem :
        (x : A) (ys : List A)
        → All (λ y. owner x ≢ owner y) ys
        → Agree (x ∷ ys) (add_best time x ys)
    unfolding has
    fresh_lem x ys h = record {
      same = λ k. sym (has-add_best k x ys);
      size = sym (length-add_best x ys ∙ rw (has_none (owner x) ys h) refl);
    }

    -- A row below the bound.
    below_lem :
        (x : A) (ys : List A)
        → le x ≡ true
        → Distinct owner ys
        → Agree (select le (add_best time x ys)) (add_best time x (select le ys))
    unfolding add_best select
    below_lem x [] h d = rw h (Agree-refl (x ∷ []))
    below_lem x (y ∷ ys) h d = elim (Bool-cases (owner y ==ℤ owner x)) [
      | inl e ↦ elim (Bool-cases (is_before (time y) (time x))) [
        | inl b ↦ rw (e, b, below (time x) (time y) bound h b, e, b) (Agree-refl _)
        | inr b ↦ elim (Bool-cases (le y)) [
          | inl l ↦ rw (e, b, h, l, e, b) (Agree-refl _)
          | inr l ↦
              rw (e, b, h, l)
                (fresh_lem x (select le ys) (
                  All-select (λ z. owner x ≢ owner z) le ys
                    (rw (sym ((==ℤ_iff (owner y) (owner x)).0 e)) d.0)))
        ]
      ]
      | inr e ↦ elim (Bool-cases (le y)) [
        | inl l ↦ rw (e, l, e) (Agree-cons y _ _ (below_lem x ys h d.1))
        | inr l ↦ rw (e, l) (below_lem x ys h d.1)
      ]
    ]

    best-Agree : (xs : List A) → Agree (best time (select le xs)) (select le (best time xs))
    unfolding best select
    best-Agree [] = Agree-refl []
    best-Agree (x ∷ xs) = elim (Bool-cases (le x)) [
      | inl h ↦ rw h (
          Agree-trans _ _ _ (add_best-Agree x _ _ (best-Agree xs))
            (Agree-sym _ _ (below_lem x (best time xs) h (best-Distinct time xs))))
      | inr h ↦ rw (h, above_lem x (best time xs) h) (best-Agree xs)
    ]

    -- As many owners have a row below the bound as best rows are below it.
    pub length-best :
        (xs : List A) → length (best time (select le xs)) ≡ length (select le (best time xs))
    length-best xs = (best-Agree xs).size
