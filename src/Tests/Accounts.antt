-- ===== src/Tests/Accounts.antt =====
-- Accounts, personas, tokens, passwords and the checks on names.
use medge_net.Prelude.{
  ◌≡◌, ◌≢◌, ◌+◌, ◌<◌, ◌≤◌, ◌↔◌, refl, true, false, not, [], ◌∷◌, ◌++◌, none, some, Bytes, All,
  codes, length, arith, equal, if◌then◌else◌,
}
use medge_net.Prelude.Int.{pos, ◌==ℤ◌}
use medge_net.Exec.{ok, err, account_exists, persona_name_taken, ◌>>=◌}
use medge_net.Fesl.Validate.{
  accepted, validate_persona_name, validate_account_nuid, validate_account_password,
}
use medge_net.Fesl.Validate.Accepts.{
  name_char, Fits, validate_persona_name_iff, validate_account_nuid_iff,
  validate_account_password_iff,
}
use medge_net.Identifiers.{safe_identifier-persona_name}
use medge_net.Locker.Identifier.{safe_identifier}
use medge_net.Password.{hash_with, verify_password, pbkdf2_sha256, password_iterations}
use medge_net.Password.Verify.{verify_password-hash_with}
use medge_net.Store.{Account, Store, find, select, stmt}
use medge_net.Store.Accounts.{create_account, validate_account}
use medge_net.Store.Accounts.Create.{new_account, create_account_taken, login_after_create}
use medge_net.Store.Personas.{get_or_create_persona, lookup_persona_by_name, insert_persona, owned}
use medge_net.Store.Personas.Names.{
  new_persona, get_or_create_persona_again, get_or_create_persona_new,
}
use medge_net.Store.Tokens.{issue_login_token, account_by_login_token, of_account}
use medge_net.Store.Tokens.Issue.{new_token, new_row, issued_rows, login_with_issued_token}
use medge_net.Tests.Samples.{calm_env, calm_env-HmacSize, calm_env-RandomSize, faith, two_runners}
use medge_net.Text.{contains, is_empty}
use medge_net.Text.Runes.{trim_space}

create_account_taken_example :
    ((create_account calm_env (codes "faith") (codes "pw") two_runners).0 ≡ err account_exists)
    × ((create_account calm_env (codes "faith") (codes "pw") two_runners).1.accounts ≡ faith ∷ [])
unfolding codes find equal
create_account_taken_example =
    create_account_taken calm_env (codes "faith") (codes "pw") two_runners faith refl refl

abbrev kate_account : Account
kate_account = new_account calm_env (codes "kate") (codes "pw") two_runners

login_after_create_example :
    ((create_account calm_env (codes "kate") (codes "pw") two_runners).0 ≡ ok (some kate_account))
    × ((create_account calm_env (codes "kate") (codes "pw") two_runners).1.accounts
        ≡ two_runners.accounts ++ kate_account ∷ [])
    × ((validate_account calm_env
          (codes "kate")
          (codes "no")
          (create_account calm_env (codes "kate") (codes "pw") two_runners).1).0
        ≡ ok (
            if equal
              (pbkdf2_sha256 calm_env
                (codes "no")
                (calm_env.random two_runners.ticks 16)
                (pos password_iterations)
                32)
              (pbkdf2_sha256 calm_env
                (codes "pw")
                (calm_env.random two_runners.ticks 16)
                (pos password_iterations)
                32)
            then some kate_account
            else none))
    × ((validate_account calm_env
          (codes "kate")
          (codes "pw")
          (create_account calm_env (codes "kate") (codes "pw") two_runners).1).0
        ≡ ok (some kate_account))
unfolding find equal codes
login_after_create_example =
    login_after_create calm_env (codes "kate") (codes "pw") two_runners (codes "no")
      calm_env-HmacSize calm_env-RandomSize refl (λ t. refl)

-- The state after the first call has made the persona.
abbrev with_merc : Store
with_merc = (get_or_create_persona calm_env (pos 1) (codes "Merc") two_runners).1

get_or_create_persona_again_example :
    get_or_create_persona calm_env (pos 2) (codes "Merc") with_merc ≡ (
      if pos 1 ==ℤ pos 2
          then ok (new_persona calm_env (pos 1) (codes "Merc") two_runners)
          else err persona_name_taken,
      record with_merc { ticks = with_merc.ticks + 1 },
    )
unfolding find equal codes get_or_create_persona ◌>>=◌ lookup_persona_by_name stmt insert_persona
    owned ◌==ℤ◌
get_or_create_persona_again_example =
    get_or_create_persona_again calm_env (pos 1) (pos 2) (codes "Merc") two_runners
      (new_persona calm_env (pos 1) (codes "Merc") two_runners) refl refl

get_or_create_persona_new_example :
    get_or_create_persona calm_env (pos 1) (codes "Merc") two_runners ≡ (
      ok (new_persona calm_env (pos 1) (codes "Merc") two_runners),
      record two_runners {
        personas =
            two_runners.personas ++ new_persona calm_env (pos 1) (codes "Merc") two_runners ∷ [];
        ticks = 3;
      },
    )
unfolding find equal codes
get_or_create_persona_new_example =
    get_or_create_persona_new calm_env (pos 1) (codes "Merc") two_runners refl refl refl refl

issued_rows_example :
    select (of_account (pos 1)) (issue_login_token calm_env (pos 1) two_runners).1.login_tokens
    ≡ new_row calm_env (pos 1) two_runners ∷ []
unfolding find select ◌==ℤ◌
issued_rows_example = issued_rows calm_env (pos 1) two_runners refl refl refl

login_with_issued_token_example :
    ((issue_login_token calm_env (pos 1) two_runners).0 ≡ ok (new_token calm_env two_runners))
    × ((account_by_login_token calm_env
          (new_token calm_env two_runners)
          (issue_login_token calm_env (pos 1) two_runners).1).0
        ≡ ok (some faith))
unfolding find select ◌==ℤ◌
login_with_issued_token_example =
    login_with_issued_token calm_env (pos 1) two_runners faith calm_env-RandomSize (λ t. refl) refl
      refl

verify_password-hash_with_example :
    (verify_password calm_env (codes "no") (hash_with calm_env (1 ∷ 2 ∷ []) (codes "pw"))
      ≡ equal
          (pbkdf2_sha256 calm_env (codes "no") (1 ∷ 2 ∷ []) (pos password_iterations) 32)
          (pbkdf2_sha256 calm_env (codes "pw") (1 ∷ 2 ∷ []) (pos password_iterations) 32))
    × (verify_password calm_env (codes "pw") (hash_with calm_env (1 ∷ 2 ∷ []) (codes "pw")) ≡ true)
verify_password-hash_with_example =
    verify_password-hash_with calm_env calm_env-HmacSize (1 ∷ 2 ∷ []) (codes "pw") (codes "no")
      (omega arith)

abbrev dots : Bytes
dots = b'a' ∷ b'.' ∷ b'.' ∷ []

validate_persona_name_iff_example : (validate_persona_name dots (pos 64) ≡ accepted) ↔ (
    (is_empty (trim_space dots) ≡ false) × Fits (pos 64) dots × All (λ c. name_char c ≡ true) dots)
validate_persona_name_iff_example = validate_persona_name_iff dots (pos 64)

validate_account_nuid_iff_example : (validate_account_nuid dots (pos 64) ≡ accepted) ↔ (
    (is_empty (trim_space dots) ≡ false)
    × Fits (pos 64) dots
    × All (λ c. (0x20 ≤ c) × (c ≢ 0x7f) × (c ≢ b'=')) dots)
validate_account_nuid_iff_example = validate_account_nuid_iff dots (pos 64)

validate_account_password_iff_example : (validate_account_password dots ≡ accepted) ↔ (
    (0 < length dots) × (length dots ≤ 256) × All (λ c. (c ≢ 0) × (c ≢ b'\r') × (c ≢ b'\n')) dots)
validate_account_password_iff_example = validate_account_password_iff dots

dots_accepted : validate_persona_name dots (pos 64) ≡ accepted
unfolding validate_persona_name trim_space
dots_accepted = refl

safe_identifier-persona_name_example :
    safe_identifier (pos 64) dots ≡ not (contains dots (b'.' ∷ b'.' ∷ []))
safe_identifier-persona_name_example =
    safe_identifier-persona_name dots 64 (omega arith) dots_accepted
