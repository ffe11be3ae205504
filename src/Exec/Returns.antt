-- ===== src/Exec/Returns.antt =====
-- What calls return while they keep an invariant: errors are allowed, a panic is not; and calls that
-- always return.
use medge_net.Prelude.{◌≡◌, ◌≢◌, refl}
use medge_net.Exec.{Error, Outcome, ok, err, panic, Run, pure, ◌>>=◌, catch, continue, caught}
use medge_net.Exec.Ends.{Ends}

abbrev pub Fine : {A : Type 0} → (A → Type 0) → Outcome A → Type 0
Fine P (ok a) = P a
Fine P (err e) = Unit
Fine P panic = ⊥

-- What `m` returns has `P`, and it keeps `I`.
pub record Returns {S : Type 0} {A : Type 0} (I : S → Type 0) (P : A → Type 0) (m : Run S A)
    : Type 0 where
  pub at : (s : S) → I s → Fine P (m s).0 × I (m s).1

-- `m` returns, with `P`, and it keeps `I`.
pub record Replies {S : Type 0} {A : Type 0} (I : S → Type 0) (P : A → Type 0) (m : Run S A)
    : Type 0 where
  pub at : (s : S) → I s → ((a : A) × ((m s).0 ≡ ok a) × P a) × I (m s).1

fine : {A : Type 0} (P : A → Type 0) (r : Outcome A) (a : A) → r ≡ ok a → P a → Fine P r
fine P r a e p = rw e p

module _ {S : Type 0} {A : Type 0} {I : S → Type 0} {P : A → Type 0} where
  pub Returns-pure : (a : A) → P a → Returns I P (pure a)
  unfolding pure
  Returns-pure a p = record { at = λ s i. (p, i) }

  pub Replies-pure : (a : A) → P a → Replies I P (pure a)
  unfolding pure
  Replies-pure a p = record { at = λ s i. ((a, refl, p), i) }

  pub Replies-Returns : (m : Run S A) → Replies I P m → Returns I P m
  Replies-Returns m h = record {
    at = λ s i. let ((a, e, p), j) = h.at s i in (fine P (m s).0 a e p, j);
  }

pub outcome_lem : {A : Type 0} (r : Outcome A) → r ≢ panic → Fine (λ _. Unit) r
outcome_lem (ok a) h = tt
outcome_lem (err e) h = tt
outcome_lem panic h = absurd (h refl)

pub Replies-map :
    {S : Type 0} {A : Type 0} {I : S → Type 0} {P : A → Type 0} {Q : A → Type 0} {m : Run S A}
    → ((a : A) → P a → Q a)
    → Replies I P m
    → Replies I Q m
Replies-map f h = record { at = λ s i. let ((a, e, p), j) = h.at s i in ((a, e, f a p), j) }

pub Ends-Returns :
    {S : Type 0} {A : Type 0} (m : Run S A) → Ends A m → Returns (λ _. Unit) (λ _. Unit) m
Ends-Returns m h = record { at = λ s i. (outcome_lem (m s).0 (h.at s), tt) }

module _ {S : Type 0} {A : Type 0} {B : Type 0} {I : S → Type 0} {P : A → Type 0}
    {Q : B → Type 0} where
  continue_lem :
      (r : Outcome A) (next : A → Run S B)
      → Fine P r
      → ((a : A) → P a → Returns I Q (next a))
      → Returns I Q (continue r next)
  continue_lem (ok a) next p k = k a p
  continue_lem (err e) next p k = record { at = λ s i. (tt, i) }
  continue_lem panic next p k = absurd p

  pub Returns-bind :
      (call : Run S A) (next : A → Run S B)
      → Returns I P call
      → ((a : A) → P a → Returns I Q (next a))
      → Returns I Q (call >>= next)
  unfolding ◌>>=◌
  Returns-bind call next h k = record {
    at = λ s i. let (p, j) = h.at s i in (continue_lem (call s).0 next p k).at (call s).1 j;
  }

  go_on :
      (r : Outcome A) (next : A → Run S B)
      → (a : A) × (r ≡ ok a) × P a
      → ((a : A) → P a → Replies I Q (next a))
      → Replies I Q (continue r next)
  go_on r next (a, e, p) k = rw e (k a p)

  pub Replies-bind :
      (call : Run S A) (next : A → Run S B)
      → Replies I P call
      → ((a : A) → P a → Replies I Q (next a))
      → Replies I Q (call >>= next)
  unfolding ◌>>=◌
  Replies-bind call next h k = record {
    at = λ s i. let (p, j) = h.at s i in (go_on (call s).0 next p k).at (call s).1 j;
  }

  caught_lem :
      (r : Outcome A) (f : A → Run S B) (g : Error → Run S B)
      → Fine P r
      → ((a : A) → P a → Replies I Q (f a))
      → ((e : Error) → Replies I Q (g e))
      → Replies I Q (caught r f g)
  caught_lem (ok a) f g p k l = k a p
  caught_lem (err e) f g p k l = l e
  caught_lem panic f g p k l = absurd p

  -- A caller that answers in every case answers.
  pub Replies-catch :
      (call : Run S A) (f : A → Run S B) (g : Error → Run S B)
      → Returns I P call
      → ((a : A) → P a → Replies I Q (f a))
      → ((e : Error) → Replies I Q (g e))
      → Replies I Q (catch call f g)
  unfolding catch
  Replies-catch call f g h k l = record {
    at = λ s i. let (p, j) = h.at s i in (caught_lem (call s).0 f g p k l).at (call s).1 j;
  }
