-- ===== src/Exec/Ends.antt =====
-- Calls that do not panic.
use medge_net.Prelude.{Bool, true, false, if◌then◌else◌, ◌≢◌, refl, arith}
use medge_net.Exec.{Outcome, ok, err, panic, Run, pure, gets, ◌>>=◌, continue}
use medge_net.Exec.Closed.{Answers, Closed}

-- `m` ends with a result or an error, whatever the state.
pub record Ends {S : Type 0} (A : Type 0) (m : Run S A) : Type 0 where
  pub at : (s : S) → (m s).0 ≢ panic

module _ {S : Type 0} {A : Type 0} where
  pub Ends-pure : (a : A) → Ends A (pure {S = S} a)
  unfolding pure
  Ends-pure a = record { at = λ s h. ground arith }

  pub Ends-gets : (f : S → A) → Ends A (gets f)
  unfolding gets
  Ends-gets f = record { at = λ s h. ground arith }

  pub Ends-if : (b : Bool) (m n : Run S A) → Ends A m → Ends A n → Ends A (if b then m else n)
  Ends-if true m n h k = h
  Ends-if false m n h k = k

  pub Answers-Ends : (m : Run S A) → Answers A m → Ends A m
  Answers-Ends m h = record { at = λ s p. let (a, e) = h.at s in ground arith }

module _ {S : Type 0} {A : Type 0} {B : Type 0} where
  Ends-continue :
      (r : Outcome A) (f : A → Run S B)
      → r ≢ panic
      → ((a : A) → Ends B (f a))
      → Ends B (continue r f)
  Ends-continue (ok a) f h k = k a
  Ends-continue (err e) f h k = record { at = λ s p. ground arith }
  Ends-continue panic f h k = absurd (h refl)

  pub Ends-bind :
      (call : Run S A) (next : A → Run S B)
      → Ends A call
      → ((result : A) → Ends B (next result))
      → Ends B (call >>= next)
  unfolding ◌>>=◌
  Ends-bind call next h k = record {
    at = λ s. let (r, later) = call s in (Ends-continue r next (h.at s) k).at later;
  }

pub Ends-Closed : {S : Type 0} → Closed {S = S} (λ A m. Ends A m)
Ends-Closed = record { pure_lem = Ends-pure; bind_lem = Ends-bind; if_lem = Ends-if }

pub ruleset ends_rules = (Ends-pure, Ends-gets, Ends-if, Ends-bind)
