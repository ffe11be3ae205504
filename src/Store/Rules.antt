-- ===== src/Store/Rules.antt =====
-- Statements and random reads under an invariant that does not look at the tick counter.
use medge_net.Prelude.{ℕ, ◌+◌, inl, inr, Bool-cases}
use medge_net.Env.{Env}
use medge_net.Exec.{Run}
use medge_net.Exec.Keeps.{Keeps}
use medge_net.Store.{Store, stmt, draw}

abbrev pub IgnoresTicks {κ} : (Store → Type κ) → Type κ
IgnoresTicks P = (s : Store) (n : ℕ) → P s → P (record s { ticks = n })

module _ {κ} {P : Store → Type κ} (env : Env) where
  pub Keeps-stmt {ℓ} :
      {A : Type ℓ} (m : Run Store A) → IgnoresTicks P → Keeps P m → Keeps P (stmt env m)
  unfolding stmt
  Keeps-stmt m free k = record {
    at = λ s h. elim (Bool-cases (env.fault s.ticks)) [
      | inl e ↦ rw e (free s (s.ticks + 1) h)
      | inr e ↦ rw e (k.at _ (free s (s.ticks + 1) h))
    ];
  }

  pub Keeps-draw : (n : ℕ) → IgnoresTicks P → Keeps P (draw env n)
  unfolding draw
  Keeps-draw n free = record { at = λ s h. free s (s.ticks + 1) h }
