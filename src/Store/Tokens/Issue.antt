-- ===== src/Store/Tokens/Issue.antt =====
-- `IssueLoginToken`, and logging in with the token.
use medge_net.Prelude.{
  ℕ, ◌+◌, ◌≡◌, refl, Bool, true, false, not, List, [], ◌∷◌, ◌++◌, none, some, Bytes, arith,
  equal_refl, inl, inr, Bool-cases,
}
use medge_net.Prelude.Int.{ℤ, ◌==ℤ◌, ==ℤ_refl}
use medge_net.Env.{Env, RandomSize}
use medge_net.Exec.{ok, ◌>>=◌}
use medge_net.Store.{Account, LoginToken, Store, stmt, draw, find, select}
use medge_net.Store.Accounts.Create.{find-snoc}
use medge_net.Store.Tokens.Format.{valid_login_token-base64}
use medge_net.Store.Tokens.{
  of_account, has_hash, delete_tokens, insert_token, touch_token, token_account,
  generate_login_token, hash_login_token, revoke_login_tokens, issue_login_token, touch_found,
  account_by_login_token, base64_url, dot_padding,
}

-- The token made in store `s`, its row, and the rows that stay.
abbrev pub new_token : Env → Store → Bytes
new_token env s = dot_padding (base64_url (env.random s.ticks 112))

abbrev pub new_row : Env → ℤ → Store → LoginToken
new_row env account_id s = record {
  token_hash = hash_login_token env (new_token env s);
  account_id = account_id;
  created_at = env.stamp (s.ticks + 1 + 1 + 1);
  last_used_at = env.stamp (s.ticks + 1 + 1 + 1);
}

abbrev pub kept_rows : ℤ → Store → List LoginToken
kept_rows account_id s = select (λ t. not (of_account account_id t)) s.login_tokens

select-rest {ℓ} :
    {A : Type ℓ} (p : A → Bool) (xs : List A) (x : A)
    → p x ≡ true
    → select p (select (λ y. not (p y)) xs ++ x ∷ []) ≡ x ∷ []
unfolding select
select-rest p [] x h = rw h
select-rest p (y ∷ xs) x h = elim (Bool-cases (p y)) [
  | inl e ↦ rw e (select-rest p xs x h)
  | inr e ↦ rw (e, e) (select-rest p xs x h)
]

module _ (env : Env) (account_id : ℤ) (s : Store) where
  issue_login_token_lem :
      env.fault (s.ticks + 1) ≡ false
      → env.fault (s.ticks + 1 + 1) ≡ false
      → find (has_hash (hash_login_token env (new_token env s))) (kept_rows account_id s) ≡ none
      → issue_login_token env account_id s ≡ (
        ok (new_token env s),
        record s {
          login_tokens = kept_rows account_id s ++ new_row env account_id s ∷ [];
          ticks = s.ticks + 1 + 1 + 1;
        },
      )
  unfolding issue_login_token ◌>>=◌ generate_login_token draw revoke_login_tokens stmt delete_tokens
      insert_token
  issue_login_token_lem calm calm' fresh = rw (calm, calm', fresh)

  -- When its two statements do not fail, and no token of another account has the hash of the new one,
  -- issuing a token leaves the account that one and no other.
  pub issued_rows :
      env.fault (s.ticks + 1) ≡ false
      → env.fault (s.ticks + 1 + 1) ≡ false
      → find (has_hash (hash_login_token env (new_token env s))) (kept_rows account_id s) ≡ none
      → select (of_account account_id) (issue_login_token env account_id s).1.login_tokens
        ≡ new_row env account_id s ∷ []
  issued_rows calm calm' fresh = rw (issue_login_token_lem calm calm' fresh) (
      select-rest (of_account account_id) s.login_tokens (new_row env account_id s)
        (==ℤ_refl account_id))

  -- When no statement fails, `rand.Read` fills its buffer, and no token of another account has the
  -- hash of the new one, issuing a token to an account of the table returns it, and a login with it
  -- gives that account.
  pub login_with_issued_token :
      (a : Account)
      → RandomSize env
      → ((t : ℕ) → env.fault t ≡ false)
      → find (λ (x : Account). x.id ==ℤ account_id) s.accounts ≡ some a
      → find (has_hash (hash_login_token env (new_token env s))) (kept_rows account_id s) ≡ none
      → ((issue_login_token env account_id s).0 ≡ ok (new_token env s))
        × ((account_by_login_token env (new_token env s) (issue_login_token env account_id s).1).0
            ≡ ok (some a))
  unfolding account_by_login_token ◌>>=◌ stmt token_account touch_found touch_token
  login_with_issued_token a rs calm owner fresh =
      rw (issue_login_token_lem (calm _) (calm _) fresh) (
        refl,
        rw (
          valid_login_token-base64 (env.random s.ticks 112) (rw rs.size (omega arith))
              (rw rs.size (omega arith)),
          calm,
          find-snoc _ _ (new_row env account_id s) fresh,
          equal_refl,
          owner,
          calm,
        ),
      )
