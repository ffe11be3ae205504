-- ===== src/Store/Stats/Namesake.antt =====
-- `bestPersonaIDForKey` looks for the best persona of a name. Names are unique.
use medge_net.Prelude.{
  ◌+◌, ◌≡◌, refl, sym, ap, ◌∙◌, Bool, true, false, not, ◌&&◌, ◌||◌, List, [], ◌∷◌, Option, none,
  some, Bytes, All, equal, equal_iff, inl, inr, Bool-cases, Option-cases, arith,
}
use medge_net.Prelude.Int.{ℤ, pos, ◌==ℤ◌, ==ℤ_iff}
use medge_net.Calendar.{period_cutoff, format_day}
use medge_net.Env.{Env}
use medge_net.Float.{is_above}
use medge_net.Store.Invariant.Statements.{IsValid-Kept}
use medge_net.Text.{Option_map}
use medge_net.Exec.{ok, ◌>>=◌}
use medge_net.Store.{Persona, StatRow, Store, stmt, find, select}
use medge_net.Store.Invariant.{IsValid}
use medge_net.Store.Keys.{Distinct-find, find-eq-some}
use medge_net.Store.Personas.{has_id, persona_by_id}
use medge_net.Store.Stats.{
  least_row, named_in, owner_or, is_named, best_of_name, best_persona_id_for_key,
}
use medge_net.Store.Stats.Closed.{best_persona_id_for_key-Closed}
use medge_net.Store.Stats.Keeps.{NeverFails, Answers-Reading}
use medge_net.Store.Stats.Scope.{sql_less, since, is_time_key, period_date_clause}

least_row-All {κ} :
    (P : StatRow → Type κ) (rows : List StatRow) (r : StatRow)
    → All P rows
    → least_row rows ≡ some r
    → P r
unfolding least_row
least_row-All P [] a h e = absurd (cc)
least_row-All P (r ∷ rs) a h e = elim (Option-cases (least_row rs)) [
  | inl f ↦ let got : some r ≡ some a = rw f at e in let same : r ≡ a = cc in rw (sym same) h.0
  | inr (b, f) ↦ elim (Bool-cases (sql_less b.value r.value)) [
    | inl t ↦
        let got : some b ≡ some a = rw (f, t) at e in
        let same : b ≡ a = cc in rw (sym same) (least_row-All P rs b h.1 f)
    | inr t ↦
        let got : some r ≡ some a = rw (f, t) at e in let same : r ≡ a = cc in rw (sym same) h.0
  ]
]

select-holds {ℓ} : {A : Type ℓ} (p : A → Bool) (xs : List A) → All (λ x. p x ≡ true) (select p xs)
unfolding select
select-holds p [] = tt
select-holds p (x ∷ xs) = elim (Bool-cases (p x)) [
  | inl e ↦ rw e (e, select-holds p xs)
  | inr e ↦ rw e (select-holds p xs)
]

first : (a b c d e : Bool) → (a && b && c && d && e) ≡ true → a ≡ true
first a b c d e h = ground arith

name_lem :
    (name : Bytes) (o : Option Persona) (b c d e : Bool)
    → (is_named name o && b && c && d && e) ≡ true
    → (q : Persona) × (o ≡ some q) × (equal q.name name ≡ true)
name_lem name none b c d e h = absurd (no h)
  where
    no : (false && b && c && d && e) ≡ true → ⊥
    no h = ground arith
name_lem name (some q) b c d e h = (q, refl, first _ b c d e h)

-- The owner of a row that is found by a persona's name is that persona.
owner_lem :
    (s : Store) (id : ℤ) (p : Persona) (r : StatRow) (key : Bytes) (period_id : ℤ)
    (cutoff : Option Bytes)
    → IsValid s
    → find (has_id id) s.personas ≡ some p
    → named_in s p.name key period_id cutoff r ≡ true
    → r.persona_id ≡ id
owner_lem s id p r key period_id cutoff v found h =
    let (q, e, named) =
      name_lem p.name (find (has_id r.persona_id) s.personas) (equal r.key key)
        (r.period_id ==ℤ period_id) (is_above r.value) (since cutoff r.updated_at) h in
    let same =
      Distinct-find (λ (x : Persona). x.name) (has_id r.persona_id) (has_id id) s.personas q p
        v.names e found ((equal_iff q.name p.name).0 named) in
    let own = (==ℤ_iff q.id r.persona_id).0 (find-eq-some (has_id r.persona_id) s.personas q e) in
    let asked = (==ℤ_iff p.id id).0 (find-eq-some (has_id id) s.personas p found) in
    sym own ∙ (ap (λ (x : Persona). x.id) same ∙ asked)

-- Whatever row comes first of those with the name, it is the persona's own.
owner_or_lem :
    (s : Store) (id : ℤ) (p : Persona) (key : Bytes) (period_id : ℤ) (cutoff : Option Bytes)
    → IsValid s
    → find (has_id id) s.personas ≡ some p
    → owner_or id (least_row (select (named_in s p.name key period_id cutoff) s.stats)) ≡ id
owner_or_lem s id p key period_id cutoff v found =
    elim (Option-cases (least_row (select (named_in s p.name key period_id cutoff) s.stats))) [
      | inl e ↦ rw e refl
      | inr (r, e) ↦
          let named =
            least_row-All (λ r. named_in s p.name key period_id cutoff r ≡ true) _ r
              (select-holds (named_in s p.name key period_id cutoff) s.stats) e in
          rw e (owner_lem s id p r key period_id cutoff v found named)
    ]

ok_inj : (a b : ℤ) → ok a ≡ ok b → a ≡ b
ok_inj a b e = cc

best_of_name_lem :
    (env : Env) (id : ℤ) (key : Bytes) (period_id : ℤ) (p : Persona) (s : Store) (found : ℤ)
    → IsValid s
    → find (has_id id) s.personas ≡ some p
    → (best_of_name env id key period_id (some p) s).0 ≡ ok found
    → found ≡ id
unfolding best_of_name ◌>>=◌ period_date_clause stmt
best_of_name_lem env id key period_id p s found v e h = elim (Bool-cases (env.fault s.ticks)) [
  | inl f ↦ absurd (cc (rw f at h))
  | inr f ↦
      let cutoff = Option_map format_day (period_cutoff period_id (env.today s.ticks)) in
      let got = rw f at h in sym (ok_inj _ _ got) ∙ owner_or_lem s id p key period_id cutoff v e
]

returned_own :
    (env : Env) (id : ℤ) (key : Bytes) (period_id : ℤ) (s : Store) (found : ℤ)
    → IsValid s
    → (best_persona_id_for_key env id key period_id s).0 ≡ ok found
    → found ≡ id
unfolding best_persona_id_for_key persona_by_id ◌>>=◌ stmt
returned_own env id key period_id s found v h =
    elim (Bool-cases (id ==ℤ pos 0 || not (is_time_key key))) [
      | inl e ↦ sym (ok_inj _ _ (rw e at h))
      | inr e ↦ elim (Bool-cases (env.fault s.ticks)) [
        | inl f ↦ absurd (cc (rw (e, f) at h))
        | inr f ↦ elim (Option-cases (find (has_id id) s.personas)) [
          | inl n ↦ sym (ok_inj _ _ (rw (e, f, n, best_of_name) at h))
          | inr (p, n) ↦
              best_of_name_lem env id key period_id p (record s { ticks = s.ticks + 1 }) found
                ((IsValid-Kept env).free s (s.ticks + 1) v) n (rw (e, f, n) at h)
        ]
      ]
    ]

-- Names of personas are unique, so the best persona of a persona's name is that persona: where no
-- statement fails, `bestPersonaIDForKey` returns the id that it was given.
pub best_persona_id_for_key-own :
    (env : Env) (id : ℤ) (key : Bytes) (period_id : ℤ) (s : Store)
    → NeverFails env
    → IsValid s
    → (best_persona_id_for_key env id key period_id s).0 ≡ ok id
best_persona_id_for_key-own env id key period_id s calm v =
    let (found, e) =
      (best_persona_id_for_key-Closed env (Answers-Reading env calm) id key period_id).at s in
    e ∙ ap ok (returned_own env id key period_id s found v e)
