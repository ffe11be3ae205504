-- ===== src/Store/Calls.antt =====
-- What the store's statements keep, its functions keep: an interface that an invariant fills once.
use medge_net.Prelude.{Option, none, some, Bytes}
use medge_net.Prelude.Int.{ℤ}
use medge_net.Env.{Env}
use medge_net.Exec.{Run}
use medge_net.Float.{Float64}
use medge_net.Exec.Keeps.{Keeps, keeps_rules}
use medge_net.Store.{Account, Persona, Store, stmt}
use medge_net.Store.Accounts.{
  insert_account, set_password, hash_password, get_account_by_nuid, create_account, upgrade,
  validate_found, validate_account,
}
use medge_net.Store.Friends.{get_associations}
use medge_net.Store.Personas.{
  insert_persona, owned, list_personas, persona_by_id, persona_exists, lookup_persona_by_name,
  created, or_create, get_or_create_persona,
}
use medge_net.Store.Stats.{upsert_stat}
use medge_net.Store.Rules.{IgnoresTicks, Keeps-stmt, Keeps-draw}
use medge_net.Store.Tokens.{
  insert_token, delete_tokens, touch_token, generate_login_token, revoke_login_tokens,
  issue_login_token, touch_found, account_by_login_token,
}

-- Every statement that writes, apart from those on `friends` and on historical players, keeps `P`.
pub record Kept {κ} (env : Env) (P : Store → Type κ) : Type κ where
  pub free : IgnoresTicks P
  pub insert_account : (nuid password : Bytes) → Keeps P (insert_account nuid password)
  pub set_password : (id : ℤ) (password : Bytes) → Keeps P (set_password id password)
  pub insert_token : (hash : Bytes) (id : ℤ) → Keeps P (insert_token env hash id)
  pub delete_tokens : (id : ℤ) → Keeps P (delete_tokens id)
  pub touch_token : (hash : Bytes) → Keeps P (touch_token env hash)
  pub insert_persona : (id : ℤ) (name : Bytes) → Keeps P (insert_persona env id name)
  pub upsert_stat :
      (id : ℤ) (key : Bytes) (value : Float64) (period_id : ℤ)
      → Keeps P (upsert_stat env id key value period_id)

module _ {κ} {P : Store → Type κ} (env : Env) (k : Kept env P) where
  pub stmt_kept {ℓ} : {A : Type ℓ} (m : Run Store A) → Keeps P m → Keeps P (stmt env m)
  stmt_kept m h = Keeps-stmt env m k.free h

  get_account_by_nuid-Keeps : (nuid : Bytes) → Keeps P (get_account_by_nuid env nuid)
  unfolding get_account_by_nuid
  get_account_by_nuid-Keeps nuid = search (keeps_rules, stmt_kept)

  hash_password-Keeps : (password : Bytes) → Keeps P (hash_password env password)
  unfolding hash_password
  hash_password-Keeps password = search (keeps_rules, Keeps-draw env 16 k.free)

  pub create_account-Keeps : (nuid password : Bytes) → Keeps P (create_account env nuid password)
  unfolding create_account
  create_account-Keeps nuid password =
      search
        (keeps_rules, stmt_kept, k.insert_account, get_account_by_nuid-Keeps, hash_password-Keeps)

  upgrade-Keeps : (nuid password : Bytes) (a : Account) → Keeps P (upgrade env nuid password a)
  unfolding upgrade
  upgrade-Keeps nuid password a =
      search
        (keeps_rules, stmt_kept, k.set_password, get_account_by_nuid-Keeps, hash_password-Keeps)

  validate_found-Keeps :
      (nuid password : Bytes) (found : Option Account)
      → Keeps P (validate_found env nuid password found)
  unfolding validate_found
  validate_found-Keeps nuid password none = search keeps_rules
  validate_found-Keeps nuid password (some a) = search (keeps_rules, upgrade-Keeps)

  pub validate_account-Keeps :
      (nuid password : Bytes) → Keeps P (validate_account env nuid password)
  unfolding validate_account
  validate_account-Keeps nuid password =
      search (keeps_rules, get_account_by_nuid-Keeps, validate_found-Keeps)

  generate_login_token-Keeps : Keeps P (generate_login_token env)
  unfolding generate_login_token
  generate_login_token-Keeps = search (keeps_rules, Keeps-draw env 112 k.free)

  revoke_login_tokens-Keeps : (id : ℤ) → Keeps P (revoke_login_tokens env id)
  unfolding revoke_login_tokens
  revoke_login_tokens-Keeps id = search (keeps_rules, stmt_kept, k.delete_tokens)

  pub issue_login_token-Keeps : (id : ℤ) → Keeps P (issue_login_token env id)
  unfolding issue_login_token
  issue_login_token-Keeps id = search (
    keeps_rules, stmt_kept, k.insert_token, generate_login_token-Keeps, revoke_login_tokens-Keeps,
  )

  touch_found-Keeps : (hash : Bytes) (found : Option Account) → Keeps P (touch_found env hash found)
  unfolding touch_found
  touch_found-Keeps hash none = search keeps_rules
  touch_found-Keeps hash (some a) = search (keeps_rules, stmt_kept, k.touch_token)

  pub account_by_login_token-Keeps : (token : Bytes) → Keeps P (account_by_login_token env token)
  unfolding account_by_login_token
  account_by_login_token-Keeps token = search (keeps_rules, stmt_kept, touch_found-Keeps)

  pub list_personas-Keeps : (id : ℤ) → Keeps P (list_personas env id)
  unfolding list_personas
  list_personas-Keeps id = search (keeps_rules, stmt_kept)

  pub persona_by_id-Keeps : (id : ℤ) → Keeps P (persona_by_id env id)
  unfolding persona_by_id
  persona_by_id-Keeps id = search (keeps_rules, stmt_kept)

  pub persona_exists-Keeps : (id : ℤ) → Keeps P (persona_exists env id)
  unfolding persona_exists
  persona_exists-Keeps id = search (keeps_rules, stmt_kept)

  pub lookup_persona_by_name-Keeps : (name : Bytes) → Keeps P (lookup_persona_by_name env name)
  unfolding lookup_persona_by_name
  lookup_persona_by_name-Keeps name = search (keeps_rules, stmt_kept)

  pub get_associations-Keeps : (id : ℤ) (typ : Bytes) → Keeps P (get_associations env id typ)
  unfolding get_associations
  get_associations-Keeps id typ = search (keeps_rules, stmt_kept)

  owned-Keeps : (id : ℤ) (p : Persona) → Keeps P (owned id p)
  unfolding owned
  owned-Keeps id p = search keeps_rules

  created-Keeps : (id : ℤ) (found : Option Persona) → Keeps P (created env id found)
  unfolding created
  created-Keeps id none = search keeps_rules
  created-Keeps id (some p) = search owned-Keeps

  or_create-Keeps :
      (id : ℤ) (name : Bytes) (found : Option Persona) → Keeps P (or_create env id name found)
  unfolding or_create
  or_create-Keeps id name (some p) = search owned-Keeps
  or_create-Keeps id name none =
      search (keeps_rules, stmt_kept, k.insert_persona, lookup_persona_by_name-Keeps, created-Keeps)

  pub get_or_create_persona-Keeps :
      (id : ℤ) (name : Bytes) → Keeps P (get_or_create_persona env id name)
  unfolding get_or_create_persona
  get_or_create_persona-Keeps id name =
      search (keeps_rules, lookup_persona_by_name-Keeps, or_create-Keeps)
