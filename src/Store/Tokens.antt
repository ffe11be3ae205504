-- ===== src/Store/Tokens.antt =====
-- Login tokens: `IssueLoginToken`, `AccountByLoginToken`, `RevokeLoginTokens`, `ValidLoginToken`.
pub mod Issue
pub mod Format
use medge_net.Prelude.{
  ℕ, ◌+◌, ◌-◌, ◌*◌, ◌/◌, ◌%◌, Bool, true, false, not, ◌||◌, List, [], ◌∷◌, ◌++◌, map, Option, none,
  some, Bytes, length, ltb, leb, ◌==◌, equal, if◌then◌else◌,
}
use medge_net.Prelude.Int.{ℤ, ◌==ℤ◌}
use medge_net.Env.{Env}
use medge_net.Exec.{Outcome, ok, err, db_error, Run, pure, gets, ◌>>=◌, ◌>>◌}
use medge_net.Password.{hex_encode}
use medge_net.Store.{Account, LoginToken, Store, stmt, draw, find, select, is_some}
use medge_net.Text.{is_empty}
use medge_net.Text.Runes.{runes}

abbrev pub max_login_token_len : ℕ
max_login_token_len = 256

abbrev pub login_token_bytes : ℕ
login_token_bytes = 112

-- The alphabet of `base64.URLEncoding`.
unfoldable pub base64_char : ℕ → ℕ
base64_char n =
    if ltb n 26
    then b'A' + n
    else if ltb n 52
    then b'a' + (n - 26)
    else if ltb n 62
    then b'0' + (n - 52)
    else if n == 62
    then b'-'
    else b'_'

-- `base64.URLEncoding.EncodeToString`, with padding.
unfoldable pub base64_url : Bytes → Bytes
unfolding base64_char
base64_url [] = []
base64_url (a ∷ []) = base64_char (a / 4) ∷ base64_char (a % 4 * 16) ∷ b'=' ∷ b'=' ∷ []
base64_url (a ∷ b ∷ []) =
    base64_char (a / 4) ∷ base64_char (a % 4 * 16 + b / 16) ∷ base64_char (b % 16 * 4) ∷ b'=' ∷ []
base64_url (a ∷ b ∷ c ∷ s) =
    base64_char (a / 4)
    ∷ base64_char (a % 4 * 16 + b / 16)
    ∷ base64_char (b % 16 * 4 + c / 64)
    ∷ base64_char (c % 64)
    ∷ base64_url s

-- `strings.ReplaceAll(s, "=", ".")`.
unfoldable pub dot_padding : Bytes → Bytes
dot_padding [] = []
dot_padding (c ∷ s) = (if c == b'=' then b'.' else c) ∷ dot_padding s

token_runes : List ℕ → Bool
token_runes [] = true
token_runes (r ∷ rs) = if ltb r 0x21 || ltb 0x7e r then false else token_runes rs

unfoldable pub valid_login_token : Bytes → Bool
unfolding token_runes
valid_login_token token =
    if is_empty token || ltb max_login_token_len (length token)
    then false
    else token_runes (runes token)

abbrev pub of_account : ℤ → LoginToken → Bool
of_account account_id t = t.account_id ==ℤ account_id

-- DELETE FROM login_tokens WHERE account_id = ?
unfoldable pub delete_tokens : ℤ → Run Store (Unit {0})
delete_tokens account_id s =
    (ok tt, record s { login_tokens = select (λ t. not (of_account account_id t)) s.login_tokens })

abbrev pub has_hash : Bytes → LoginToken → Bool
has_hash hash t = equal t.token_hash hash

-- INSERT INTO login_tokens; the hash is the primary key.
unfoldable pub insert_token : Env → Bytes → ℤ → Run Store (Unit {0})
insert_token env hash account_id s =
    if is_some (find (has_hash hash) s.login_tokens) then (err db_error, s) else (
      ok tt,
      record s {
        login_tokens =
            s.login_tokens
            ++ (record {
              token_hash = hash;
              account_id = account_id;
              created_at = env.stamp s.ticks;
              last_used_at = env.stamp s.ticks;
            })
              ∷ [];
      },
    )

unfoldable pub touch_rows : Bytes → Bytes → List LoginToken → List LoginToken
touch_rows hash now [] = []
touch_rows hash now (t ∷ rows) =
    (if has_hash hash t then record t { last_used_at = now } else t) ∷ touch_rows hash now rows

-- UPDATE login_tokens SET last_used_at.
unfoldable pub touch_token : Env → Bytes → Run Store (Unit {0})
unfolding touch_rows
touch_token env hash s =
    (ok tt, record s { login_tokens = touch_rows hash (env.stamp s.ticks) s.login_tokens })

-- The join of a token with its account.
joined : List Account → Option LoginToken → Option Account
joined accounts none = none
joined accounts (some t) = find (λ a. a.id ==ℤ t.account_id) accounts

unfoldable pub token_account : Bytes → Store → Option Account
unfolding joined
token_account hash s = joined s.accounts (find (has_hash hash) s.login_tokens)

module _ (env : Env) where
  unfoldable pub generate_login_token : Run Store Bytes
  generate_login_token = do buf ← draw env login_token_bytes; pure (dot_padding (base64_url buf))

  unfoldable pub hash_login_token : Bytes → Bytes
  hash_login_token token = hex_encode (env.sha256 token)

  unfoldable pub revoke_login_tokens : ℤ → Run Store (Unit {0})
  revoke_login_tokens account_id = stmt env (delete_tokens account_id)

  unfoldable pub issue_login_token : ℤ → Run Store Bytes
  issue_login_token account_id = do
    token ← generate_login_token
    revoke_login_tokens account_id
    stmt env (insert_token env (hash_login_token token) account_id)
    pure token

  unfoldable pub touch_found : Bytes → Option Account → Run Store (Option Account)
  touch_found hash none = pure none
  touch_found hash (some account) = do stmt env (touch_token env hash); pure (some account)

  unfoldable pub account_by_login_token : Bytes → Run Store (Option Account)
  unfolding touch_found
  account_by_login_token token = if not (valid_login_token token) then pure none else do
    found ← stmt env (gets (token_account (hash_login_token token)))
    touch_found (hash_login_token token) found
