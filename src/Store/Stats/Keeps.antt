-- ===== src/Store/Stats/Keeps.antt =====
-- What the store's statements keep, its statistics functions keep; they answer where no statement
-- fails, and never panic.
use medge_net.Prelude.{ℕ, ◌+◌, ◌≡◌, refl, false, [], ◌∷◌, arith, inl, inr, Bool-cases}
use medge_net.Exec.Ends.{Ends, Ends-Closed, Ends-gets}
use medge_net.Prelude.Int.{ℤ}
use medge_net.Env.{Env}
use medge_net.Exec.{Run, ◌>>=◌}
use medge_net.Exec.Closed.{Answers, Keeps-Closed, Answers-Closed}
use medge_net.Exec.Keeps.{Keeps, keeps_rules, Keeps-gets}
use medge_net.Store.{Store, stmt}
use medge_net.Store.Calls.{Kept, stmt_kept}
use medge_net.Store.Stats.{Values, update_stats}
use medge_net.Store.Stats.Closed.{Reading}
use medge_net.Store.Stats.Scope.{period_date_clause}

-- No statement fails.
abbrev pub NeverFails : Env → Type 0
NeverFails env = (t : ℕ) → env.fault t ≡ false

pub Answers-Reading : (env : Env) → NeverFails env → Reading env (λ A m. Answers A m)
unfolding stmt ◌>>=◌ period_date_clause
Answers-Reading env calm = record {
  run = Answers-Closed;
  reads = λ f. record { at = λ s. (f (record s { ticks = s.ticks + 1 }), rw calm refl) };
  clock = λ period_id. record { at = λ s. (_, refl) };
}

pub Ends-stmt : {A : Type 0} (env : Env) (m : Run Store A) → Ends A m → Ends A (stmt env m)
unfolding stmt
Ends-stmt env m h = record {
  at = λ s. elim (Bool-cases (env.fault s.ticks)) [
    | inl f ↦ rw f (λ p. ground arith)
    | inr f ↦ rw f (h.at _)
  ];
}

pub Ends-Reading : (env : Env) → Reading env (λ A m. Ends A m)
unfolding period_date_clause
Ends-Reading env = record {
  run = Ends-Closed;
  reads = λ f. Ends-stmt env _ (Ends-gets f);
  clock = λ period_id. record { at = λ s h. ground arith };
}

module _ {κ} {P : Store → Type κ} (env : Env) (k : Kept env P) where
  stmt_lem {ℓ} : {A : Type ℓ} (m : Run Store A) → Keeps P m → Keeps P (stmt env m)
  stmt_lem m h = stmt_kept env k m h

  pub Keeps-Reading : Reading env (λ A m. Keeps P m)
  unfolding period_date_clause
  Keeps-Reading = record {
    run = Keeps-Closed P;
    reads = λ f. stmt_lem _ (Keeps-gets f);
    clock = λ period_id. record { at = λ s h. h };
  }

  pub update_stats-Keeps :
      (id : ℤ) (values : Values) (period_id : ℤ) → Keeps P (update_stats env id values period_id)
  unfolding update_stats
  update_stats-Keeps id [] period_id = search keeps_rules
  update_stats-Keeps id (v ∷ vs) period_id =
      search (keeps_rules, stmt_lem, k.upsert_stat, update_stats-Keeps id vs)
