-- ===== src/Exec.antt =====
-- Go functions that change state and may fail. What was written before an error stays written, so
-- the state comes back beside the error too. `panic` is a Go run-time panic: no handler recovers one,
-- so it ends the process.
pub mod Keeps
pub mod Closed
pub mod Ends
pub mod Returns

pub data Error : Type 0 where
  db_error io_error account_exists persona_name_taken no_rows : Error

pub data Outcome {ℓ} (A : Type ℓ) : Type ℓ where
  ok : A → Outcome A
  err : Error → Outcome A
  panic : Outcome A

abbrev pub Run {ℓ} : Type 0 → Type ℓ → Type ℓ
Run S A = S → Outcome A × S

module _ {ℓ} {S : Type 0} {A : Type ℓ} where
  pub pure : A → Run S A
  pure a s = (ok a, s)

  pub fail : Error → Run S A
  fail e s = (err e, s)

  pub crash : Run S A
  crash s = (panic, s)

  pub gets : (S → A) → Run S A
  gets f s = (ok (f s), s)

module _ {ℓ κ} {S : Type 0} {A : Type ℓ} {B : Type κ} where
  abbrev pub continue : Outcome A → (A → Run S B) → Run S B
  continue (ok a) f s = f a s
  continue (err e) f s = (err e, s)
  continue panic f s = (panic, s)

  -- An error of a call, handed to the caller that looks at it.
  abbrev pub caught : Outcome A → (A → Run S B) → (Error → Run S B) → Run S B
  caught (ok a) f g s = f a s
  caught (err e) f g s = g e s
  caught panic f g s = (panic, s)

  infixl 10 ◌>>=◌ ◌>>◌
  -- Opening this opens `pure`, `fail`, `crash` and `gets` too.
  unfoldable pub ◌>>=◌ : Run S A → (A → Run S B) → Run S B
  unfolding pure fail crash gets
  ◌>>=◌ m f s = let (r, s') = m s in continue r f s'

  abbrev pub ◌>>◌ : Run S A → Run S B → Run S B
  m >> n = m >>= λ _. n

  unfoldable pub catch : Run S A → (A → Run S B) → (Error → Run S B) → Run S B
  catch m f g s = let (r, s') = m s in caught r f g s'
