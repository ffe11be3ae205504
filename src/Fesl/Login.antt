-- ===== src/Fesl/Login.antt =====
-- server/fesl/server.go: `NuLogin`/`Login` and `NuAddAccount`.
pub mod Persona
use medge_net.Prelude.{not, [], ◌∷◌, ◌++◌, Option, none, some, Bytes, codes, equal, if◌then◌else◌}
use medge_net.Env.{Env}
use medge_net.Exec.{Error, account_exists, Run, pure, fail, catch, ◌>>=◌, ◌>>◌}
use medge_net.Packet.{Packet, encode}
use medge_net.Store.{Account}
use medge_net.Store.Accounts.{validate_account, create_account}
use medge_net.Store.Tokens.{account_by_login_token, issue_login_token}
use medge_net.Fesl.Session.{
  World, current, on_store, set_session, kv, kvs, field, error_code, random_hex,
}
use medge_net.Fesl.Validate.{is_accepted, validate_account_nuid, validate_account_password}
use medge_net.Text.{is_empty}
use medge_net.Text.Number.{format_int}

module _ (env : Env) where
  -- The session takes the account over; the persona of the session is left as it was.
  unfoldable pub login_response : Packet → Account → Bytes → Run World Bytes
  login_response pkt account encrypted_login_info = do
    lkey ← on_store (random_hex env 20)
    session ← current
    set_session (record session { account_id = account.id; nuid = account.nuid; lkey = lkey })
    let resp = kvs (
        codes "TXN"
        ∷ codes "NuLogin"
        ∷ codes "lkey"
        ∷ lkey
        ∷ codes "nuid"
        ∷ account.nuid
        ∷ codes "profileId"
        ∷ format_int account.id
        ∷ codes "userId"
        ∷ format_int account.id
        ∷ [])
    pure (
        encode (codes "acct") pkt.id (
          if not (is_empty encrypted_login_info)
          then resp ++ kv (codes "encryptedLoginInfo") encrypted_login_info ∷ []
          else resp))

  abbrev login_refused : Packet → Run World Bytes
  login_refused pkt =
      pure (encode (codes "acct") pkt.id (error_code (codes "NuLogin") (codes "122")))

  unfoldable pub by_token : Packet → Option Account → Run World Bytes
  by_token pkt none = login_refused pkt
  by_token pkt (some account) = login_response pkt account []

  unfoldable pub by_password : Packet → Option Account → Run World Bytes
  by_password pkt none = login_refused pkt
  by_password pkt (some account) =
      if equal (field pkt "returnEncryptedInfo") (codes "1")
      then (do
        token ← on_store (issue_login_token env account.id)
        login_response pkt account token)
      else login_response pkt account []

  unfoldable pub handle_nu_login : Packet → Run World Bytes
  unfolding by_token by_password
  handle_nu_login pkt =
      let token = field pkt "encryptedInfo" in
      if not (is_empty token)
      then (do found ← on_store (account_by_login_token env token); by_token pkt found)
      else (do
        found ← on_store (validate_account env (field pkt "nuid") (field pkt "password"))
        by_password pkt found)

  abbrev add_refused : Packet → Run World Bytes
  add_refused pkt =
      pure (encode (codes "acct") pkt.id (error_code (codes "NuAddAccount") (codes "122")))

  unfoldable pub added : Packet → Option Account → Run World Bytes
  added pkt none = add_refused pkt
  added pkt (some account) =
      pure (encode (codes "acct") pkt.id (kvs (codes "TXN" ∷ codes "NuAddAccount" ∷ [])))

  unfoldable pub add_failed : Packet → Error → Run World Bytes
  add_failed pkt account_exists = add_refused pkt
  add_failed pkt e = fail e

  unfoldable pub handle_nu_add_account : Packet → Run World Bytes
  unfolding added add_failed
  handle_nu_add_account pkt =
      let nuid = field pkt "nuid" in
      let password = field pkt "password" in
      if not (is_accepted (validate_account_nuid nuid env.cfg.max_identifier_length))
      then add_refused pkt
      else if not (is_accepted (validate_account_password password))
      then add_refused pkt
      else catch (on_store (create_account env nuid password)) (added pkt) (add_failed pkt)
