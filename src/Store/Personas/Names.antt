-- ===== src/Store/Personas/Names.antt =====
-- `GetOrCreatePersona`: whose persona a name gives.
use medge_net.Prelude.{
  ◌+◌, ◌≡◌, false, [], ◌∷◌, ◌++◌, map, Option, none, some, Bytes, equal_refl, if◌then◌else◌, inl,
  inr, Bool-cases, arith, refl, ap, ◌∙◌,
}
use medge_net.Prelude.Int.{ℤ, ◌==ℤ◌, ==ℤ_refl, ==ℤ_iff}
use medge_net.Env.{Env}
use medge_net.Exec.{Outcome, Run, ok, err, persona_name_taken, ◌>>=◌}
use medge_net.Store.{Persona, Store, stmt, find, next_id, is_some}
use medge_net.Store.Accounts.Create.{find-snoc}
use medge_net.Store.Personas.{
  has_name, insert_persona, owned, lookup_persona_by_name, created, or_create,
  get_or_create_persona,
}

-- The row that is made for a free name.
abbrev pub new_persona : Env → ℤ → Bytes → Store → Persona
new_persona env account_id name s = record {
  id = next_id (map (λ (p : Persona). p.id) s.personas);
  account_id = account_id;
  name = name;
  created_at = env.stamp (s.ticks + 1 + 1);
}

module _ (env : Env) (account_id : ℤ) (name : Bytes) (s : Store) where
  -- When the statement does not fail, a name that a persona of another account has is refused, and one
  -- of the account's own personas is given back; neither changes a table.
  get_or_create_persona_existing :
      (p : Persona)
      → find (has_name name) s.personas ≡ some p
      → env.fault s.ticks ≡ false
      → get_or_create_persona env account_id name s ≡ (
        if p.account_id ==ℤ account_id then ok p else err persona_name_taken,
        record s { ticks = s.ticks + 1 },
      )
  unfolding get_or_create_persona ◌>>=◌ lookup_persona_by_name stmt or_create owned
  get_or_create_persona_existing p h calm = elim (Bool-cases (p.account_id ==ℤ account_id)) [
    | inl e ↦ rw (calm, h, e)
    | inr e ↦ rw (calm, h, e)
  ]

  -- When no statement fails, a free name gives a new persona of the account, with the next id, behind
  -- the others.
  pub get_or_create_persona_new :
      find (has_name name) s.personas ≡ none
      → env.fault s.ticks ≡ false
      → env.fault (s.ticks + 1) ≡ false
      → env.fault (s.ticks + 1 + 1) ≡ false
      → get_or_create_persona env account_id name s ≡ (
        ok (new_persona env account_id name s),
        record s {
          personas = s.personas ++ new_persona env account_id name s ∷ [];
          ticks = s.ticks + 1 + 1 + 1;
        },
      )
  unfolding get_or_create_persona ◌>>=◌ lookup_persona_by_name stmt or_create insert_persona owned
      created
  get_or_create_persona_new h calm calm' calm'' = rw (
    calm,
    h,
    calm',
    h,
    calm'',
    find-snoc (has_name name) s.personas (new_persona env account_id name s) h,
    equal_refl,
    ==ℤ_refl,
  )

-- The call ended with `p`, which is stored under the name for the account.
record Given (account_id : ℤ) (name : Bytes) (p : Persona) (r : Outcome Persona × Store)
    : Type 0 where
  pub stored : find (has_name name) r.1.personas ≡ some p
  pub own : p.account_id ≡ account_id

module _ (env : Env) (account_id : ℤ) (name : Bytes) (p : Persona) where
  abbrev Gives : Run Store Persona → Store → Type 0
  Gives m s = (m s).0 ≡ ok p → Given account_id name p (m s)

  owned_lem :
      (x : Persona) (s : Store)
      → find (has_name name) s.personas ≡ some x
      → Gives (owned account_id x) s
  unfolding owned ◌>>=◌
  owned_lem x s h = elim (Bool-cases (x.account_id ==ℤ account_id)) [
    | inl e ↦ rw e (λ q. record {
      stored = ground (arith, h);
      own = ground (arith, ==ℤ_iff x.account_id account_id);
    })
    | inr e ↦ rw e (λ q. ground arith)
  ]

  created_lem :
      (found : Option Persona) (s : Store)
      → find (has_name name) s.personas ≡ found
      → Gives (created env account_id found) s
  unfolding created ◌>>=◌
  created_lem none s h = λ q. ground arith
  created_lem (some x) s h = owned_lem x s h

  lookup_lem :
      (next : Option Persona → Run Store Persona) (s : Store)
      → ((s' : Store) → Gives (next (find (has_name name) s'.personas)) s')
      → Gives (lookup_persona_by_name env name >>= next) s
  unfolding lookup_persona_by_name stmt ◌>>=◌
  lookup_lem next s k = elim (Bool-cases (env.fault s.ticks)) [
    | inl e ↦ rw e (λ q. ground arith)
    | inr e ↦ rw e (k (record s { ticks = s.ticks + 1 }))
  ]

  insert_lem :
      (next : Run Store Persona) (s : Store)
      → ((s' : Store) → Gives next s')
      → Gives (stmt env (insert_persona env account_id name) >>= λ _. next) s
  unfolding insert_persona stmt ◌>>=◌
  insert_lem next s k = elim (Bool-cases (env.fault s.ticks)) [
    | inl e ↦ rw e (λ q. ground arith)
    | inr e ↦ elim (Bool-cases (is_some (find (has_name name) s.personas))) [
      | inl f ↦ rw (e, f) (k _)
      | inr f ↦ rw (e, f) (k _)
    ]
  ]

  or_create_lem :
      (existing : Option Persona) (s : Store)
      → find (has_name name) s.personas ≡ existing
      → Gives (or_create env account_id name existing) s
  unfolding or_create
  or_create_lem none s h = insert_lem _ s (λ s'. lookup_lem _ s' (λ s''. created_lem _ s'' refl))
  or_create_lem (some x) s h = owned_lem x s h

  get_or_create_persona-Given : (s : Store) → Gives (get_or_create_persona env account_id name) s
  unfolding get_or_create_persona
  get_or_create_persona-Given s = lookup_lem _ s (λ s'. or_create_lem _ s' refl)

-- Once a call has given a persona to an account, by finding or by making it, a later call
-- for the name whose statement does not fail gives the same persona to the same account and
-- persona_name_taken to every other one, and changes no table.
pub get_or_create_persona_again :
    (env : Env) (account_id other : ℤ) (name : Bytes) (s : Store) (p : Persona)
    → (get_or_create_persona env account_id name s).0 ≡ ok p
    → env.fault (get_or_create_persona env account_id name s).1.ticks ≡ false
    → get_or_create_persona env other name (get_or_create_persona env account_id name s).1 ≡ (
      if account_id ==ℤ other then ok p else err persona_name_taken,
      record (get_or_create_persona env account_id name s).1 {
        ticks = (get_or_create_persona env account_id name s).1.ticks + 1;
      },
    )
get_or_create_persona_again env account_id other name s p h calm =
    let given = get_or_create_persona-Given env account_id name p s h in
    let after = (get_or_create_persona env account_id name s).1 in
    get_or_create_persona_existing env other name after p given.stored calm
    ∙ ap
        (λ a. (
          if a ==ℤ other then ok p else err persona_name_taken,
          record after { ticks = after.ticks + 1 },
        ))
        given.own
