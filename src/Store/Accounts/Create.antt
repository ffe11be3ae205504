-- ===== src/Store/Accounts/Create.antt =====
-- `CreateAccount`, and logging in with what it made.
use medge_net.Prelude.{
  ℕ, ◌+◌, ◌≡◌, refl, ◌∙◌, Bool, false, List, [], ◌∷◌, ◌++◌, map, none, some, Bytes, arith, equal,
  equal_refl, if◌then◌else◌,
}
use medge_net.Prelude.Int.{pos}
use medge_net.Env.{Env, HmacSize, RandomSize}
use medge_net.Exec.{ok, err, account_exists, ◌>>=◌}
use medge_net.Password.{hash_with, pbkdf2_sha256, password_iterations}
use medge_net.Password.Verify.{verify_password-hash_with, is_hashed-hash_with}
use medge_net.Store.{Account, Store, stmt, draw, find, next_id}
use medge_net.Store.Accounts.{
  has_nuid, insert_account, hash_password, get_account_by_nuid, create_account, validate_account,
  validate_found,
}

pub find-snoc {ℓ} :
    {A : Type ℓ} (p : A → Bool) (xs : List A) (x : A)
    → find p xs ≡ none
    → find p (xs ++ x ∷ []) ≡ (if p x then some x else none)
unfolding find
find-snoc p [] x h = refl
find-snoc p (y ∷ xs) x h = ground (arith, find-snoc p xs x)

-- The row that `CreateAccount` makes in store `s`.
abbrev pub new_account : Env → Bytes → Bytes → Store → Account
new_account env nuid password s = record {
  id = next_id (map (λ (a : Account). a.id) s.accounts);
  nuid = nuid;
  password = hash_with env (env.random s.ticks 16) password;
}

module _ (env : Env) (nuid password : Bytes) (s : Store) where
  -- When the insertion does not fail, a name that is taken is refused, whatever the password, and the
  -- accounts stay as they are.
  pub create_account_taken :
      (a : Account)
      → find (has_nuid nuid) s.accounts ≡ some a
      → env.fault (s.ticks + 1) ≡ false
      → ((create_account env nuid password s).0 ≡ err account_exists)
        × ((create_account env nuid password s).1.accounts ≡ s.accounts)
  unfolding ◌>>=◌ create_account hash_password draw stmt insert_account
  create_account_taken a h calm = ground arith

  create_account_new :
      find (has_nuid nuid) s.accounts ≡ none
      → env.fault (s.ticks + 1) ≡ false
      → env.fault (s.ticks + 1 + 1) ≡ false
      → create_account env nuid password s ≡ (
        ok (some (new_account env nuid password s)),
        record s {
          accounts = s.accounts ++ new_account env nuid password s ∷ [];
          ticks = s.ticks + 1 + 1 + 1;
        },
      )
  unfolding ◌>>=◌ create_account hash_password draw stmt insert_account get_account_by_nuid
  create_account_new h calm calm' = rw (
    calm,
    h,
    calm',
    find-snoc (has_nuid nuid) s.accounts (new_account env nuid password s) h,
    equal_refl,
  )

  validate_new :
      (attempt : Bytes) (t : Store)
      → HmacSize env
      → RandomSize env
      → find (has_nuid nuid) t.accounts ≡ some (new_account env nuid password s)
      → env.fault t.ticks ≡ false
      → (validate_account env nuid attempt t).0
        ≡ ok (
            if equal
              (pbkdf2_sha256 env attempt (env.random s.ticks 16) (pos password_iterations) 32)
              (pbkdf2_sha256 env password (env.random s.ticks 16) (pos password_iterations) 32)
            then some (new_account env nuid password s)
            else none)
  unfolding ◌>>=◌ validate_account get_account_by_nuid stmt validate_found
  validate_new attempt t hs rs h calm =
      let salt = env.random s.ticks 16 in
      rw
        (
          calm,
          h,
          is_hashed-hash_with env salt password,
          (verify_password-hash_with env hs salt password attempt (rs.bytes s.ticks 16)).0,
        )
        (ground arith)

  -- Creating an account under a free name, when no statement fails, HMAC gives 32 bytes and `rand.Read`
  -- fills its buffer, returns the account and adds it to
  -- the table; a login with that name on the resulting store, when its statement does not fail,
  -- returns that account exactly when the attempted password derives the same key as the password of
  -- the creation, as that password itself does; otherwise it returns no account.
  pub login_after_create :
      (attempt : Bytes)
      → HmacSize env
      → RandomSize env
      → find (has_nuid nuid) s.accounts ≡ none
      → ((t : ℕ) → env.fault t ≡ false)
      → ((create_account env nuid password s).0 ≡ ok (some (new_account env nuid password s)))
        × ((create_account env nuid password s).1.accounts
            ≡ s.accounts ++ new_account env nuid password s ∷ [])
        × ((validate_account env nuid attempt (create_account env nuid password s).1).0
            ≡ ok (
                if equal
                  (pbkdf2_sha256 env attempt (env.random s.ticks 16) (pos password_iterations) 32)
                  (pbkdf2_sha256 env password (env.random s.ticks 16) (pos password_iterations) 32)
                then some (new_account env nuid password s)
                else none))
        × ((validate_account env nuid password (create_account env nuid password s).1).0
            ≡ ok (some (new_account env nuid password s)))
  login_after_create attempt hs rs h calm =
      let made = create_account_new h (calm (s.ticks + 1)) (calm (s.ticks + 1 + 1)) in
      let t = record s {
        accounts = s.accounts ++ new_account env nuid password s ∷ [];
        ticks = s.ticks + 1 + 1 + 1;
      } in
      let found : find (has_nuid nuid) t.accounts ≡ some (new_account env nuid password s) =
        rw (find-snoc (has_nuid nuid) s.accounts (new_account env nuid password s) h, equal_refl) in
      rw made (
        refl,
        refl,
        validate_new attempt t hs rs found (calm t.ticks),
        validate_new password t hs rs found (calm t.ticks) ∙ rw equal_refl,
      )
