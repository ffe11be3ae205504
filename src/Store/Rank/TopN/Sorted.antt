-- ===== src/Store/Rank/TopN/Sorted.antt =====
-- The leaderboard's order: least values first, each owner once.
use medge_net.Prelude.{
  ℕ, ◌≤◌, ◌≡◌, ◌≢◌, refl, sym, ◌∙◌, Bool, List, [], ◌∷◌, Bytes, Option, All, length, inl, inr,
  Bool-cases, arith,
}
use medge_net.Prelude.Int.{ℤ}
use medge_net.Float.{Float64, order}
use medge_net.Store.{Store, select}
use medge_net.Store.Keys.{Distinct}
use medge_net.Store.Rank.{best}
use medge_net.Store.Rank.Best.{best-Distinct}
use medge_net.Store.Rank.TopN.{Candidate, insert_by_value, sort_by_value, leaderboard, candidates}
use medge_net.Store.Stats.Scope.{sql_less}

abbrev pub value : Candidate → Float64
value c = c.time.value

abbrev pub candidate_owner : Candidate → ℤ
candidate_owner c = c.time.owner_id

abbrev pub Sorted : List Candidate → Type 0
Sorted [] = Unit
Sorted (x ∷ xs) = All (λ y. order (value x) ≤ order (value y)) xs × Sorted xs

All-insert_by_value {κ} :
    (P : Candidate → Type κ) (x : Candidate) (ys : List Candidate)
    → P x
    → All P ys
    → All P (insert_by_value x ys)
unfolding insert_by_value
All-insert_by_value P x [] px h = (px, tt)
All-insert_by_value P x (y ∷ ys) px h = elim (Bool-cases (sql_less (value y) (value x))) [
  | inl e ↦ rw e (h.0, All-insert_by_value P x ys px h.1)
  | inr e ↦ rw e (px, h)
]

All-weaken :
    (a b : ℕ) (ys : List Candidate)
    → a ≤ b
    → All (λ y. b ≤ order (value y)) ys
    → All (λ y. a ≤ order (value y)) ys
All-weaken a b [] l h = tt
All-weaken a b (y ∷ ys) l h = (omega (arith, h.0), All-weaken a b ys l h.1)

insert_by_value-Sorted :
    (x : Candidate) (ys : List Candidate) → Sorted ys → Sorted (insert_by_value x ys)
unfolding insert_by_value
insert_by_value-Sorted x [] d = (tt, tt)
insert_by_value-Sorted x (y ∷ ys) d = elim (Bool-cases (sql_less (value y) (value x))) [
  | inl e ↦ rw e (
    All-insert_by_value (λ z. order (value y) ≤ order (value z)) x ys (ground arith) d.0,
    insert_by_value-Sorted x ys d.1,
  )
  | inr e ↦
      rw e ((ground arith, All-weaken (order (value x)) (order (value y)) ys (ground arith) d.0), d)
]

sort_by_value-Sorted : (xs : List Candidate) → Sorted (sort_by_value xs)
unfolding sort_by_value
sort_by_value-Sorted [] = tt
sort_by_value-Sorted (x ∷ xs) =
    insert_by_value-Sorted x (sort_by_value xs) (sort_by_value-Sorted xs)

insert_by_value-Distinct :
    (x : Candidate) (ys : List Candidate)
    → All (λ y. candidate_owner x ≢ candidate_owner y) ys
    → Distinct candidate_owner ys
    → Distinct candidate_owner (insert_by_value x ys)
unfolding insert_by_value
insert_by_value-Distinct x [] n d = (tt, tt)
insert_by_value-Distinct x (y ∷ ys) n d = elim (Bool-cases (sql_less (value y) (value x))) [
  | inl e ↦ rw e (
    All-insert_by_value (λ z. candidate_owner y ≢ candidate_owner z) x ys
        (λ (p : candidate_owner y ≡ candidate_owner x). n.0 (sym p)) d.0,
    insert_by_value-Distinct x ys n.1 d.1,
  )
  | inr e ↦ rw e (n, d)
]

All-sort_by_value {κ} :
    (P : Candidate → Type κ) (xs : List Candidate) → All P xs → All P (sort_by_value xs)
unfolding sort_by_value
All-sort_by_value P [] h = tt
All-sort_by_value P (x ∷ xs) h =
    All-insert_by_value P x (sort_by_value xs) h.0 (All-sort_by_value P xs h.1)

sort_by_value-Distinct :
    (xs : List Candidate)
    → Distinct candidate_owner xs
    → Distinct candidate_owner (sort_by_value xs)
unfolding sort_by_value
sort_by_value-Distinct [] d = tt
sort_by_value-Distinct (x ∷ xs) d =
    insert_by_value-Distinct x (sort_by_value xs) (All-sort_by_value _ xs d.0)
      (sort_by_value-Distinct xs d.1)

-- A leaderboard is sorted by value, least first, and no owner stands on it twice.
pub leaderboard-Sorted :
    (s : Store) (key : Bytes) (period_id : ℤ) (cutoff : Option Bytes)
    → Sorted (leaderboard s key period_id cutoff)
      × Distinct candidate_owner (leaderboard s key period_id cutoff)
unfolding leaderboard
leaderboard-Sorted s key period_id cutoff =
    let rows = best (λ (c : Candidate). c.time) (candidates s key period_id cutoff) in
    (
      sort_by_value-Sorted rows,
      sort_by_value-Distinct rows
          (best-Distinct (λ (c : Candidate). c.time) (candidates s key period_id cutoff)),
    )

-- Sorting keeps how many rows pass a test.
length-insert_by_value :
    (p : Candidate → Bool) (x : Candidate) (ys : List Candidate)
    → length (select p (insert_by_value x ys)) ≡ length (select p (x ∷ ys))
unfolding insert_by_value select
length-insert_by_value p x [] = refl
length-insert_by_value p x (y ∷ ys) = elim (Bool-cases (sql_less (value y) (value x))) [
  | inl e ↦ rw e (ground (arith, length-insert_by_value p x ys))
  | inr e ↦ rw e refl
]

pub length-sort_by_value :
    (p : Candidate → Bool) (xs : List Candidate)
    → length (select p (sort_by_value xs)) ≡ length (select p xs)
unfolding sort_by_value select
length-sort_by_value p [] = refl
length-sort_by_value p (x ∷ xs) =
    length-insert_by_value p x (sort_by_value xs) ∙ ground (arith, length-sort_by_value p xs)
