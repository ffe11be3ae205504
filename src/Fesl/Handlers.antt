-- ===== src/Fesl/Handlers.antt =====
-- What the store's statements keep, every handler keeps.
use medge_net.Prelude.{ℕ, zero, suc, List, Option, none, some, Bytes}
use medge_net.Env.{Env}
use medge_net.Exec.{Error, account_exists, persona_name_taken}
use medge_net.Exec.Keeps.{Keeps, keeps_rules}
use medge_net.Packet.{Kv, Packet, Params}
use medge_net.Store.{Account, Persona, Store}
use medge_net.Store.Calls
use medge_net.Store.Calls.{Kept}
use medge_net.Store.Rules.{Keeps-draw}
use medge_net.Fesl.Login.{
  login_response, by_token, by_password, handle_nu_login, added, add_failed, handle_nu_add_account,
}
use medge_net.Fesl.Personas.{
  handle_nu_get_personas, persona_failed, persona_logged_in, persona_added, handle_nu_login_persona,
  handle_nu_add_persona, lookup_names, handle_nu_lookup_user_info,
}
use medge_net.Fesl.Session.{random_hex}
use medge_net.Fesl.Static.{handle_hello}
use medge_net.Fesl.Session.Keeps.{OfStore, store_rules}

module _ {κ} {P : Store → Type κ} (env : Env) (k : Kept env P) where
  random_hex-Keeps : (n : ℕ) → Keeps P (random_hex env n)
  unfolding random_hex
  random_hex-Keeps n = search (keeps_rules, Keeps-draw env n k.free)

  login_response-Keeps :
      (pkt : Packet) (a : Account) (info : Bytes)
      → Keeps (OfStore P) (login_response env pkt a info)
  unfolding login_response
  login_response-Keeps pkt a info = search (store_rules, random_hex-Keeps)

  by_token-Keeps :
      (pkt : Packet) (found : Option Account) → Keeps (OfStore P) (by_token env pkt found)
  unfolding by_token
  by_token-Keeps pkt none = search store_rules
  by_token-Keeps pkt (some a) = search (login_response-Keeps)

  by_password-Keeps :
      (pkt : Packet) (found : Option Account) → Keeps (OfStore P) (by_password env pkt found)
  unfolding by_password
  by_password-Keeps pkt none = search store_rules
  by_password-Keeps pkt (some a) =
      search (store_rules, login_response-Keeps, Calls.issue_login_token-Keeps env k)

  pub handle_nu_login-Keeps : (pkt : Packet) → Keeps (OfStore P) (handle_nu_login env pkt)
  unfolding handle_nu_login
  handle_nu_login-Keeps pkt = search (
    store_rules,
    by_token-Keeps,
    by_password-Keeps,
    Calls.account_by_login_token-Keeps env k,
    Calls.validate_account-Keeps env k,
  )

  added-Keeps : (pkt : Packet) (found : Option Account) → Keeps (OfStore P) (added env pkt found)
  unfolding added
  added-Keeps pkt none = search store_rules
  added-Keeps pkt (some a) = search store_rules

  add_failed-Keeps : (pkt : Packet) (e : Error) → Keeps (OfStore P) (add_failed env pkt e)
  unfolding add_failed
  add_failed-Keeps pkt account_exists = search store_rules
  add_failed-Keeps pkt _ = search store_rules

  pub handle_nu_add_account-Keeps :
      (pkt : Packet) → Keeps (OfStore P) (handle_nu_add_account env pkt)
  unfolding handle_nu_add_account
  handle_nu_add_account-Keeps pkt =
      search (store_rules, added-Keeps, add_failed-Keeps, Calls.create_account-Keeps env k)

  pub handle_nu_get_personas-Keeps :
      (pkt : Packet) → Keeps (OfStore P) (handle_nu_get_personas env pkt)
  unfolding handle_nu_get_personas
  handle_nu_get_personas-Keeps pkt = search (store_rules, Calls.list_personas-Keeps env k)

  persona_failed-Keeps :
      (pkt : Packet) (txn : Bytes) (e : Error) → Keeps (OfStore P) (persona_failed env pkt txn e)
  unfolding persona_failed
  persona_failed-Keeps pkt txn persona_name_taken = search store_rules
  persona_failed-Keeps pkt txn _ = search store_rules

  persona_logged_in-Keeps :
      (pkt : Packet) (p : Persona) → Keeps (OfStore P) (persona_logged_in env pkt p)
  unfolding persona_logged_in
  persona_logged_in-Keeps pkt p = search (store_rules, random_hex-Keeps)

  persona_added-Keeps : (pkt : Packet) → Keeps (OfStore P) (persona_added env pkt)
  unfolding persona_added
  persona_added-Keeps pkt = search store_rules

  pub handle_nu_login_persona-Keeps :
      (pkt : Packet) → Keeps (OfStore P) (handle_nu_login_persona env pkt)
  unfolding handle_nu_login_persona
  handle_nu_login_persona-Keeps pkt =
      search
        (
          store_rules,
          persona_failed-Keeps,
          persona_logged_in-Keeps,
          Calls.get_or_create_persona-Keeps env k,
        )
        depth 8

  pub handle_nu_add_persona-Keeps :
      (pkt : Packet) → Keeps (OfStore P) (handle_nu_add_persona env pkt)
  unfolding handle_nu_add_persona
  handle_nu_add_persona-Keeps pkt =
      search (store_rules, persona_failed-Keeps, Calls.get_or_create_persona-Keeps env k) depth 8

  lookup_names-Keeps :
      (p : Params) (left i : ℕ) (resp : List Kv)
      → Keeps (OfStore P) (lookup_names env p left i resp)
  unfolding lookup_names
  lookup_names-Keeps p zero i resp = search store_rules
  lookup_names-Keeps p (suc left) i resp =
      search (store_rules, Calls.lookup_persona_by_name-Keeps env k, lookup_names-Keeps p left)

  pub handle_nu_lookup_user_info-Keeps :
      (pkt : Packet) → Keeps (OfStore P) (handle_nu_lookup_user_info env pkt)
  unfolding handle_nu_lookup_user_info
  handle_nu_lookup_user_info-Keeps pkt = search (store_rules, lookup_names-Keeps)

  pub handle_hello-Keeps : (pkt : Packet) → Keeps (OfStore P) (handle_hello env pkt)
  unfolding handle_hello
  handle_hello-Keeps pkt = record { at = λ w h. h }
