-- ===== src/Store/Personas.antt =====
-- Personas: `Personas`, `GetOrCreatePersona`, `PersonaByID`, `PersonaExists`, `LookupPersonaByName`.
pub mod Names
use medge_net.Prelude.{
  Bool, true, false, not, List, [], ◌∷◌, ◌++◌, map, Option, none, some, Bytes, equal, if◌then◌else◌,
}
use medge_net.Prelude.Int.{ℤ, ◌==ℤ◌}
use medge_net.Env.{Env}
use medge_net.Exec.{
  Outcome, ok, err, persona_name_taken, no_rows, Run, pure, fail, gets, ◌>>=◌, ◌>>◌,
}
use medge_net.Store.{Persona, Store, stmt, find, select, next_id, is_some}

abbrev pub has_name : Bytes → Persona → Bool
has_name name p = equal p.name name

abbrev pub has_id : ℤ → Persona → Bool
has_id id p = p.id ==ℤ id

-- INSERT OR IGNORE INTO personas; the name is unique.
unfoldable pub insert_persona : Env → ℤ → Bytes → Run Store (Unit {0})
insert_persona env account_id name s =
    if is_some (find (has_name name) s.personas) then (ok tt, s) else (
      ok tt,
      record s {
        personas =
            s.personas
            ++ (record {
              id = next_id (map (λ (p : Persona). p.id) s.personas);
              account_id = account_id;
              name = name;
              created_at = env.stamp s.ticks;
            })
              ∷ [];
      },
    )

-- A row found under the wanted name, which must belong to the account.
unfoldable pub owned : ℤ → Persona → Run Store Persona
owned account_id p = if not (p.account_id ==ℤ account_id) then fail persona_name_taken else pure p

module _ (env : Env) where
  -- New rows have larger ids, so the table's order is ORDER BY id.
  unfoldable pub list_personas : ℤ → Run Store (List Persona)
  list_personas account_id =
      stmt env (gets (λ s. select (λ p. p.account_id ==ℤ account_id) s.personas))

  unfoldable pub persona_by_id : ℤ → Run Store (Option Persona)
  persona_by_id id = stmt env (gets (λ s. find (has_id id) s.personas))

  unfoldable pub persona_exists : ℤ → Run Store Bool
  persona_exists id = stmt env (gets (λ s. is_some (find (has_id id) s.personas)))

  unfoldable pub lookup_persona_by_name : Bytes → Run Store (Option Persona)
  lookup_persona_by_name name = stmt env (gets (λ s. find (has_name name) s.personas))

  unfoldable pub created : ℤ → Option Persona → Run Store Persona
  created account_id none = fail no_rows
  created account_id (some p) = owned account_id p

  unfoldable pub or_create : ℤ → Bytes → Option Persona → Run Store Persona
  unfolding created
  or_create account_id name (some existing) = owned account_id existing
  or_create account_id name none = do
    stmt env (insert_persona env account_id name)
    found ← lookup_persona_by_name name
    created account_id found

  unfoldable pub get_or_create_persona : ℤ → Bytes → Run Store Persona
  unfolding or_create
  get_or_create_persona account_id name = do
    existing ← lookup_persona_by_name name
    or_create account_id name existing
