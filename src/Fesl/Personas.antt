-- ===== src/Fesl/Personas.antt =====
-- server/fesl/server.go: `NuGetPersonas`, `NuLoginPersona`, `NuAddPersona`, `NuLookupUserInfo`.
use medge_net.Prelude.{
  ℕ, zero, suc, ◌+◌, not, List, [], ◌∷◌, ◌++◌, Option, none, some, Bytes, codes, length,
  if◌then◌else◌,
}
use medge_net.Env.{Env}
use medge_net.Exec.{Error, persona_name_taken, Run, pure, fail, catch, ◌>>=◌, ◌>>◌}
use medge_net.Packet.{Kv, Packet, Params, params_map, param, encode}
use medge_net.Store.{Persona}
use medge_net.Store.Personas.{list_personas, get_or_create_persona, lookup_persona_by_name}
use medge_net.Fesl.Session.{
  World, current, on_store, set_session, kv, kvs, field, error_code, random_hex, atoi, times,
  is_zero, indexed,
}
use medge_net.Fesl.Validate.{is_accepted, validate_persona_name}
use medge_net.Text.Number.{format_int, format_nat}

-- `personas.0=…`, `personas.1=…`, … from index `i` on.
unfoldable pub persona_lines : ℕ → List Persona → List Kv
persona_lines i [] = []
persona_lines i (p ∷ ps) = kv (indexed (codes "personas.") i []) p.name ∷ persona_lines (i + 1) ps

module _ (env : Env) where
  unfoldable pub handle_nu_get_personas : Packet → Run World Bytes
  handle_nu_get_personas pkt = do
    session ← current
    if is_zero session.account_id
        then pure (
            encode (codes "acct") pkt.id
              (kvs (codes "TXN" ∷ codes "NuGetPersonas" ∷ codes "personas.[]" ∷ codes "0" ∷ [])))
        else (do
          personas ← on_store (list_personas env session.account_id)
          pure (
              encode (codes "acct") pkt.id (
                kvs (
                  codes "TXN"
                  ∷ codes "NuGetPersonas"
                  ∷ codes "personas.[]"
                  ∷ format_nat (length personas)
                  ∷ [])
                ++ persona_lines 0 personas)))

  abbrev persona_refused : Packet → Bytes → Run World Bytes
  persona_refused pkt txn = pure (encode (codes "acct") pkt.id (error_code txn (codes "122")))

  -- Only a name that belongs to another account is answered; other errors go on.
  unfoldable pub persona_failed : Packet → Bytes → Error → Run World Bytes
  persona_failed pkt txn persona_name_taken = persona_refused pkt txn
  persona_failed pkt txn e = fail e

  unfoldable pub persona_logged_in : Packet → Persona → Run World Bytes
  persona_logged_in pkt persona = do
    lkey ← on_store (random_hex env 20)
    session ← current
    set_session
        (record session { persona_id = persona.id; persona_name = persona.name; lkey = lkey })
    pure (
        encode (codes "acct") pkt.id (
          kvs (
            codes "TXN"
            ∷ codes "NuLoginPersona"
            ∷ codes "lkey"
            ∷ lkey
            ∷ codes "profileId"
            ∷ format_int persona.id
            ∷ codes "userId"
            ∷ format_int session.account_id
            ∷ [])))

  unfoldable pub handle_nu_login_persona : Packet → Run World Bytes
  unfolding persona_failed persona_logged_in
  handle_nu_login_persona pkt = do
    session ← current
    let name = field pkt "name"
    if is_zero session.account_id
        then pure (encode (codes "acct") pkt.id (kvs (codes "TXN" ∷ codes "NuLoginPersona" ∷ [])))
        else if not (is_accepted (validate_persona_name name env.cfg.max_identifier_length))
        then persona_refused pkt (codes "NuLoginPersona")
        else catch (on_store (get_or_create_persona env session.account_id name))
            (persona_logged_in pkt) (persona_failed pkt (codes "NuLoginPersona"))

  unfoldable pub persona_added : Packet → Run World Bytes
  persona_added pkt =
      pure (encode (codes "acct") pkt.id (kvs (codes "TXN" ∷ codes "NuAddPersona" ∷ [])))

  unfoldable pub handle_nu_add_persona : Packet → Run World Bytes
  unfolding persona_failed persona_added
  handle_nu_add_persona pkt = do
    session ← current
    let name = field pkt "name"
    if is_zero session.account_id
        then persona_added pkt
        else if not (is_accepted (validate_persona_name name env.cfg.max_identifier_length))
        then persona_refused pkt (codes "NuAddPersona")
        else catch (on_store (get_or_create_persona env session.account_id name))
            (λ _. persona_added pkt) (persona_failed pkt (codes "NuAddPersona"))

  -- The three lines of one looked-up name.
  unfoldable pub user_info : ℕ → Bytes → Option Persona → List Kv
  user_info i name found =
      let id : Bytes = elim found [ none ↦ codes "0" | some p ↦ format_int p.id ] in
      let shown : Bytes = elim found [ none ↦ name | some p ↦ p.name ] in
      kv (indexed (codes "userInfo.") i (codes ".userName")) shown
      ∷ kv (indexed (codes "userInfo.") i (codes ".namespace")) []
      ∷ kv (indexed (codes "userInfo.") i (codes ".userId")) id
      ∷ []

  -- The loop over the requested names: `left` of them from index `i` on.
  unfoldable pub lookup_names : Params → ℕ → ℕ → List Kv → Run World (List Kv)
  unfolding user_info
  lookup_names p zero i resp = pure resp
  lookup_names p (suc left) i resp = do
    let name = param p (indexed (codes "userInfo.") i (codes ".userName"))
    found ← on_store (lookup_persona_by_name env name)
    lookup_names p left (i + 1) (resp ++ user_info i name found)

  unfoldable pub handle_nu_lookup_user_info : Packet → Run World Bytes
  unfolding lookup_names
  handle_nu_lookup_user_info pkt = do
    let count = atoi (field pkt "userInfo.[]")
    resp ←
        lookup_names (params_map pkt.params) (times count) 0 (
          kvs
            (codes "TXN" ∷ codes "NuLookupUserInfo" ∷ codes "userInfo.[]" ∷ format_int count ∷ []))
    pure (encode (codes "acct") pkt.id resp)
