-- ===== src/Exec/Keeps.antt =====
-- Invariants of what may fail, one rule for each way to build it.
use medge_net.Prelude.{Bool, true, false, if◌then◌else◌}
use medge_net.Exec.{
  Error, Outcome, ok, err, panic, Run, pure, fail, crash, gets, ◌>>=◌, catch, continue, caught,
}

-- `m` keeps `P`, however it ends.
pub record Keeps {ℓ κ} {S : Type 0} {A : Type ℓ} (P : S → Type κ) (m : Run S A) : Type κ where
  pub at : (s : S) → P s → P (m s).1

module _ {ℓ κ} {S : Type 0} {A : Type ℓ} {P : S → Type κ} where
  pub Keeps-gets : (f : S → A) → Keeps P (gets f)
  unfolding gets
  Keeps-gets f = record { at = λ s h. h }

  pub Keeps-pure : (a : A) → Keeps P (pure a)
  unfolding pure
  Keeps-pure a = record { at = λ s h. h }

  pub Keeps-fail : (e : Error) → Keeps P (fail {A = A} e)
  unfolding fail
  Keeps-fail e = record { at = λ s h. h }

  pub Keeps-crash : Keeps P (crash {A = A})
  unfolding crash
  Keeps-crash = record { at = λ s h. h }

  pub Keeps-if : (b : Bool) (m n : Run S A) → Keeps P m → Keeps P n → Keeps P (if b then m else n)
  Keeps-if true m n km kn = km
  Keeps-if false m n km kn = kn

module _ {ℓ κ μ} {S : Type 0} {A : Type ℓ} {B : Type κ} {P : S → Type μ} where
  Keeps-continue :
      (r : Outcome A) (f : A → Run S B) → ((a : A) → Keeps P (f a)) → Keeps P (continue r f)
  Keeps-continue (ok a) f kf = kf a
  Keeps-continue (err e) f kf = record { at = λ s h. h }
  Keeps-continue panic f kf = record { at = λ s h. h }

  pub Keeps-bind :
      (call : Run S A) (next : A → Run S B)
      → Keeps P call
      → ((result : A) → Keeps P (next result))
      → Keeps P (call >>= next)
  unfolding ◌>>=◌
  Keeps-bind call next before after = record {
    at = λ state holds.
        let (r, later) = call state in
        (Keeps-continue r next after).at later (before.at state holds);
  }

  Keeps-caught :
      (r : Outcome A) (f : A → Run S B) (g : Error → Run S B)
      → ((a : A) → Keeps P (f a))
      → ((e : Error) → Keeps P (g e))
      → Keeps P (caught r f g)
  Keeps-caught (ok a) f g kf kg = kf a
  Keeps-caught (err e) f g kf kg = kg e
  Keeps-caught panic f g kf kg = record { at = λ s h. h }

  pub Keeps-catch :
      (m : Run S A) (f : A → Run S B) (g : Error → Run S B)
      → Keeps P m
      → ((a : A) → Keeps P (f a))
      → ((e : Error) → Keeps P (g e))
      → Keeps P (catch m f g)
  unfolding catch
  Keeps-catch m f g km kf kg = record {
    at = λ s h. let (r, s') = m s in (Keeps-caught r f g kf kg).at s' (km.at s h);
  }

-- A call under `P`, with the rest under what follows from it.
pub bind-weaken {ℓ κ μ ν} :
    {S : Type 0} {A : Type ℓ} {B : Type κ} {P : S → Type μ} {Q : S → Type ν} (m : Run S A)
    (f : A → Run S B)
    → Keeps P m
    → ((s : S) → P s → Q s)
    → ((a : A) → Keeps Q (f a))
    → (s : S) → P s
    → Q ((m >>= f) s).1
unfolding ◌>>=◌
bind-weaken {Q = Q} m f km weaken kf s h =
    let (r, s') = m s in (Keeps-continue {P = Q} r f kf).at s' (weaken s' (km.at s h))

pub ruleset keeps_rules =
    (Keeps-pure, Keeps-fail, Keeps-crash, Keeps-gets, Keeps-if, Keeps-bind, Keeps-catch)
