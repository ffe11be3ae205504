-- ===== src/Exec/Closed.antt =====
-- Properties of calls that hold of what is built from calls that have them: an interface that
-- `Keeps` and `Answers` both fill.
use medge_net.Prelude.{Bool, true, false, if◌then◌else◌, ◌≡◌, refl}
use medge_net.Exec.{ok, Run, pure, ◌>>=◌}
use medge_net.Exec.Keeps.{Keeps, Keeps-pure, Keeps-if, Keeps-bind}

-- A property of every call on a state.
abbrev pub Property {κ} : Type 0 → Type (κ + 1)
Property S = (A : Type 0) → Run S A → Type κ

pub record Closed {κ} {S : Type 0} (T : Property {κ} S) : Type (κ ⊔ 1) where
  pub pure_lem : {A : Type 0} (a : A) → T A (pure a)
  pub bind_lem :
      {A : Type 0} {B : Type 0} (call : Run S A) (next : A → Run S B)
      → T A call
      → ((result : A) → T B (next result))
      → T B (call >>= next)
  pub if_lem : {A : Type 0} (b : Bool) (m n : Run S A) → T A m → T A n → T A (if b then m else n)

-- A call that ends without an error, whatever the state.
pub record Answers {S : Type 0} (A : Type 0) (m : Run S A) : Type 0 where
  pub at : (s : S) → (a : A) × ((m s).0 ≡ ok a)

pub Keeps-Closed {κ} : {S : Type 0} (P : S → Type κ) → Closed {S = S} (λ A m. Keeps P m)
Keeps-Closed P = record { pure_lem = Keeps-pure; bind_lem = Keeps-bind; if_lem = Keeps-if }

module _ {S : Type 0} {A : Type 0} {B : Type 0} where
  Answers-bind :
      (call : Run S A) (next : A → Run S B)
      → Answers A call
      → ((result : A) → Answers B (next result))
      → Answers B (call >>= next)
  unfolding ◌>>=◌
  Answers-bind call next h k = record {
    at = λ s. let (a, e) = h.at s in rw e ((k a).at (call s).1);
  }

Answers-if :
    {S : Type 0} {A : Type 0} (b : Bool) (m n : Run S A)
    → Answers A m
    → Answers A n
    → Answers A (if b then m else n)
Answers-if true m n h k = h
Answers-if false m n h k = k

pub Answers-Closed : {S : Type 0} → Closed {S = S} (λ A m. Answers A m)
unfolding pure
Answers-Closed = record {
  pure_lem = λ a. record { at = λ s. (a, refl) };
  bind_lem = Answers-bind;
  if_lem = Answers-if;
}
