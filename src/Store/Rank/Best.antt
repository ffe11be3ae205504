-- ===== src/Store/Rank/Best.antt =====
-- Bounding the values before or after the best row of each owner is taken makes no difference to the
-- number of rows.
use medge_net.Prelude.{
  ◌≤◌, ◌≡◌, ◌≢◌, sym, true, false, List, [], ◌∷◌, All, inl, inr, Bool-cases, arith,
}
use medge_net.Prelude.Int.{ℤ, ◌==ℤ◌, ==ℤ_iff}
use medge_net.Float.{order}
use medge_net.Store.Keys.{Distinct}
use medge_net.Store.Rank.{Time, is_before, add_best, best}

-- A row that comes before another has no greater value.
pub before_value : (a b : Time) → is_before a b ≡ true → order a.value ≤ order b.value
unfolding is_before
before_value a b h = ground arith

pub not_before_value : (a b : Time) → is_before a b ≡ false → order b.value ≤ order a.value
unfolding is_before
not_before_value a b h = ground arith

module _ {ℓ} {A : Type ℓ} (time : A → Time) where
  abbrev owner : A → ℤ
  owner x = (time x).owner_id

  All-add_best :
      (k : ℤ) (x : A) (ys : List A)
      → All (λ y. k ≢ owner y) ys
      → k ≢ owner x
      → All (λ y. k ≢ owner y) (add_best time x ys)
  unfolding add_best
  All-add_best k x [] h n = (n, tt)
  All-add_best k x (y ∷ ys) h n = elim (Bool-cases (owner y ==ℤ owner x)) [
    | inl e ↦ elim (Bool-cases (is_before (time y) (time x))) [
      | inl b ↦ rw (e, b) h
      | inr b ↦ rw (e, b) (n, h.1)
    ]
    | inr e ↦ rw e (h.0, All-add_best k x ys h.1 n)
  ]

  add_best-Distinct :
      (x : A) (ys : List A) → Distinct owner ys → Distinct owner (add_best time x ys)
  unfolding add_best
  add_best-Distinct x [] d = (tt, tt)
  add_best-Distinct x (y ∷ ys) d = elim (Bool-cases (owner y ==ℤ owner x)) [
    | inl e ↦ elim (Bool-cases (is_before (time y) (time x))) [
      | inl b ↦ rw (e, b) d
      | inr b ↦ rw (e, b) (rw (sym ((==ℤ_iff (owner y) (owner x)).0 e)) d.0, d.1)
    ]
    | inr e ↦ rw e (
      All-add_best (owner y) x ys d.0 (ground (arith, ==ℤ_iff (owner y) (owner x))),
      add_best-Distinct x ys d.1,
    )
  ]

  -- Each owner has one best row.
  pub best-Distinct : (xs : List A) → Distinct owner (best time xs)
  unfolding best
  best-Distinct [] = tt
  best-Distinct (x ∷ xs) = add_best-Distinct x (best time xs) (best-Distinct xs)
