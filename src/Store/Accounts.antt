-- ===== src/Store/Accounts.antt =====
-- Accounts: `CreateAccount`, `GetAccountByNUID`, `ValidateAccount`.
pub mod Create
use medge_net.Prelude.{
  ℕ, Bool, true, false, not, List, [], ◌∷◌, ◌++◌, map, Option, none, some, Bytes, equal,
  if◌then◌else◌,
}
use medge_net.Prelude.Int.{ℤ, ◌==ℤ◌}
use medge_net.Env.{Env}
use medge_net.Exec.{Outcome, ok, err, account_exists, Run, pure, fail, gets, ◌>>=◌, ◌>>◌}
use medge_net.Password.{hash_with, verify_password, is_hashed}
use medge_net.Store.{Account, Store, stmt, draw, find, next_id, is_some}

abbrev pub has_nuid : Bytes → Account → Bool
has_nuid nuid a = equal a.nuid nuid

-- INSERT OR IGNORE INTO accounts; whether a row was inserted.
unfoldable pub insert_account : Bytes → Bytes → Run Store Bool
insert_account nuid password s =
    if is_some (find (has_nuid nuid) s.accounts) then (ok false, s) else (
      ok true,
      record s {
        accounts =
            s.accounts
            ++ (record {
              id = next_id (map (λ (a : Account). a.id) s.accounts);
              nuid = nuid;
              password = password;
            })
              ∷ [];
      },
    )

unfoldable pub set_password_rows : ℤ → Bytes → List Account → List Account
set_password_rows id password [] = []
set_password_rows id password (a ∷ rows) =
    (if a.id ==ℤ id then record a { password = password } else a)
    ∷ set_password_rows id password rows

-- UPDATE accounts SET password.
unfoldable pub set_password : ℤ → Bytes → Run Store (Unit {0})
unfolding set_password_rows
set_password id password s =
    (ok tt, record s { accounts = set_password_rows id password s.accounts })

module _ (env : Env) where
  unfoldable pub hash_password : Bytes → Run Store Bytes
  hash_password password = do salt ← draw env 16; pure (hash_with env salt password)

  unfoldable pub get_account_by_nuid : Bytes → Run Store (Option Account)
  get_account_by_nuid nuid = stmt env (gets (λ s. find (has_nuid nuid) s.accounts))

  unfoldable pub create_account : Bytes → Bytes → Run Store (Option Account)
  create_account nuid password = do
    hash ← hash_password password
    inserted ← stmt env (insert_account nuid hash)
    if inserted then get_account_by_nuid nuid else fail account_exists

  -- A clear-text password is replaced by its hash at the first login.
  unfoldable pub upgrade : Bytes → Bytes → Account → Run Store (Option Account)
  upgrade nuid password account = do
    hash ← hash_password password
    stmt env (set_password account.id hash)
    get_account_by_nuid nuid

  unfoldable pub validate_found : Bytes → Bytes → Option Account → Run Store (Option Account)
  unfolding upgrade
  validate_found nuid password none = pure none
  validate_found nuid password (some account) =
      if not (verify_password env password account.password)
      then pure none
      else if not (is_hashed account.password)
      then upgrade nuid password account
      else pure (some account)

  unfoldable pub validate_account : Bytes → Bytes → Run Store (Option Account)
  unfolding validate_found
  validate_account nuid password = do
    found ← get_account_by_nuid nuid
    validate_found nuid password found
