-- ===== src/Store/Invariant/Statements.antt =====
-- Every statement that the FESL service executes, apart from those on `friends`, keeps the unique
-- columns unique.
use medge_net.Prelude.{
  Bool-cases, ℕ, ◌≡◌, ◌≢◌, refl, List, [], ◌∷◌, map, Bytes, All, arith, equal_iff, if◌then◌else◌,
  ap, inl, inr, Option-cases,
}
use medge_net.Prelude.Int.{ℤ, ◌==ℤ◌}
use medge_net.Env.{Env}
use medge_net.Store.Calls.{Kept}
use medge_net.Store.{Account, Persona, LoginToken, Store, find}
use medge_net.Store.Keys.{
  Distinct, Distinct-snoc, Distinct-select, find-eq-none, next_id_fresh, Distinct-put,
}
use medge_net.Store.Accounts.{has_nuid, insert_account, set_password, set_password_rows}
use medge_net.Store.Personas.{has_name, insert_persona}
use medge_net.Store.Tokens.{has_hash, insert_token, delete_tokens, touch_token, touch_rows}
use medge_net.Store.Invariant.{IsValid, stat_key}
use medge_net.Store.Stats.{upsert_stat, is_stat}
use medge_net.Store.Invariant.Agree.{keys_agree, keys_differ}
use medge_net.Float.{Float64, is_nan}

IsValid-ticks : (s : Store) (n : ℕ) → IsValid s → IsValid (record s { ticks = n })
IsValid-ticks s n v = record {
  account_ids = v.account_ids;
  nuids = v.nuids;
  persona_ids = v.persona_ids;
  names = v.names;
  hashes = v.hashes;
  links = v.links;
  tables = v.tables;
}

insert_account_lem :
    (nuid password : Bytes) (s : Store) → IsValid s → IsValid (insert_account nuid password s).1
unfolding insert_account
insert_account_lem nuid password s v = elim (Option-cases (find (has_nuid nuid) s.accounts)) [
  | inl e ↦ rw e (record {
    account_ids =
        Distinct-snoc (λ (a : Account). a.id) s.accounts _ v.account_ids
          (next_id_fresh (λ (a : Account). a.id) s.accounts);
    nuids =
        Distinct-snoc (λ (a : Account). a.nuid) s.accounts _ v.nuids
          (find-eq-none (has_nuid nuid) s.accounts (λ a h. ground (arith, equal_iff a.nuid nuid))
            e);
    persona_ids = v.persona_ids;
    names = v.names;
    hashes = v.hashes;
    links = v.links;
    tables = v.tables;
  })
  | inr (a, e) ↦ rw e v
]

insert_persona_lem :
    (env : Env) (account_id : ℤ) (name : Bytes) (s : Store)
    → IsValid s
    → IsValid (insert_persona env account_id name s).1
unfolding insert_persona
insert_persona_lem env account_id name s v = elim (Option-cases (find (has_name name) s.personas)) [
  | inl e ↦ rw e (record {
    account_ids = v.account_ids;
    nuids = v.nuids;
    persona_ids =
        Distinct-snoc (λ (p : Persona). p.id) s.personas _ v.persona_ids
          (next_id_fresh (λ (p : Persona). p.id) s.personas);
    names =
        Distinct-snoc (λ (p : Persona). p.name) s.personas _ v.names
          (find-eq-none (has_name name) s.personas (λ p h. ground (arith, equal_iff p.name name))
            e);
    hashes = v.hashes;
    links = v.links;
    tables = v.tables;
  })
  | inr (p, e) ↦ rw e v
]

-- Rewriting rows in place, with the key kept.
module _ {ℓ κ} {A : Type ℓ} {K : Type κ} (f : A → K) (g : A → A)
    (same : (a : A) → f (g a) ≡ f a) where
  All-map_keys : (k : K) (xs : List A) → All (λ y. k ≢ f y) xs → All (λ y. k ≢ f y) (map g xs)
  All-map_keys k [] h = tt
  All-map_keys k (x ∷ xs) h = (rw same h.0, All-map_keys k xs h.1)

  Distinct-map_keys : (xs : List A) → Distinct f xs → Distinct f (map g xs)
  Distinct-map_keys [] d = tt
  Distinct-map_keys (x ∷ xs) d = (rw same (All-map_keys (f x) xs d.0), Distinct-map_keys xs d.1)

abbrev with_password : ℤ → Bytes → Account → Account
with_password id password a = if a.id ==ℤ id then record a { password = password } else a

set_password_rows-map :
    (id : ℤ) (password : Bytes) (rows : List Account)
    → set_password_rows id password rows ≡ map (with_password id password) rows
unfolding set_password_rows
set_password_rows-map id password [] = refl
set_password_rows-map id password (a ∷ rows) =
    ap (◌∷◌ (with_password id password a)) (set_password_rows-map id password rows)

with_password_keys :
    (id : ℤ) (password : Bytes) (a : Account)
    → ((with_password id password a).id ≡ a.id) × ((with_password id password a).nuid ≡ a.nuid)
with_password_keys id password a = ground arith

set_password_lem :
    (id : ℤ) (password : Bytes) (s : Store) → IsValid s → IsValid (set_password id password s).1
unfolding set_password
set_password_lem id password s v = record {
  account_ids = rw set_password_rows-map (
      Distinct-map_keys (λ (a : Account). a.id) _ (λ a. (with_password_keys id password a).0)
        s.accounts v.account_ids);
  nuids = rw set_password_rows-map (
      Distinct-map_keys (λ (a : Account). a.nuid) _ (λ a. (with_password_keys id password a).1)
        s.accounts v.nuids);
  persona_ids = v.persona_ids;
  names = v.names;
  hashes = v.hashes;
  links = v.links;
  tables = v.tables;
}

insert_token_lem :
    (env : Env) (hash : Bytes) (account_id : ℤ) (s : Store)
    → IsValid s
    → IsValid (insert_token env hash account_id s).1
unfolding insert_token
insert_token_lem env hash account_id s v =
    elim (Option-cases (find (has_hash hash) s.login_tokens)) [
      | inl e ↦ rw e (record {
        account_ids = v.account_ids;
        nuids = v.nuids;
        persona_ids = v.persona_ids;
        names = v.names;
        hashes =
            Distinct-snoc (λ (t : LoginToken). t.token_hash) s.login_tokens _ v.hashes
              (find-eq-none (has_hash hash) s.login_tokens
                (λ t h. ground (arith, equal_iff t.token_hash hash)) e);
        links = v.links;
        tables = v.tables;
      })
      | inr (t, e) ↦ rw e v
    ]

delete_tokens_lem :
    (account_id : ℤ) (s : Store) → IsValid s → IsValid (delete_tokens account_id s).1
unfolding delete_tokens
delete_tokens_lem account_id s v = record {
  account_ids = v.account_ids;
  nuids = v.nuids;
  persona_ids = v.persona_ids;
  names = v.names;
  hashes = Distinct-select (λ (t : LoginToken). t.token_hash) _ s.login_tokens v.hashes;
  links = v.links;
  tables = v.tables;
}

abbrev touched : Bytes → Bytes → LoginToken → LoginToken
touched hash now t = if has_hash hash t then record t { last_used_at = now } else t

touch_rows-map :
    (hash now : Bytes) (rows : List LoginToken)
    → touch_rows hash now rows ≡ map (touched hash now) rows
unfolding touch_rows
touch_rows-map hash now [] = refl
touch_rows-map hash now (t ∷ rows) = ap (◌∷◌ (touched hash now t)) (touch_rows-map hash now rows)

touched_key : (hash now : Bytes) (t : LoginToken) → (touched hash now t).token_hash ≡ t.token_hash
touched_key hash now t = ground arith

touch_token_lem :
    (env : Env) (hash : Bytes) (s : Store) → IsValid s → IsValid (touch_token env hash s).1
unfolding touch_token
touch_token_lem env hash s v = record {
  account_ids = v.account_ids;
  nuids = v.nuids;
  persona_ids = v.persona_ids;
  names = v.names;
  hashes = rw touch_rows-map (
      Distinct-map_keys (λ (t : LoginToken). t.token_hash) _ (touched_key hash (env.stamp s.ticks))
        s.login_tokens v.hashes);
  links = v.links;
  tables = v.tables;
}

upsert_stat_lem :
    (env : Env) (id : ℤ) (key : Bytes) (value : Float64) (period_id : ℤ) (s : Store)
    → IsValid s
    → IsValid (upsert_stat env id key value period_id s).1
unfolding upsert_stat
upsert_stat_lem env id key value period_id s v = elim (Bool-cases (is_nan value)) [
  | inl e ↦ rw e v
  | inr e ↦ rw e (record {
    account_ids = v.account_ids;
    nuids = v.nuids;
    persona_ids = v.persona_ids;
    names = v.names;
    hashes = v.hashes;
    links = v.links;
    tables = record {
      stat_keys =
          Distinct-put stat_key (is_stat id key period_id) _
            (λ r h. keys_agree r.persona_id id r.key key r.period_id period_id h)
            (λ r h. keys_differ r.persona_id id r.key key r.period_id period_id h) s.stats
            v.tables.stat_keys;
      player_ids = v.tables.player_ids;
      source_keys = v.tables.source_keys;
      run_keys = v.tables.run_keys;
      linked_keys = v.tables.linked_keys;
    };
  })
]

-- Every statement keeps the unique columns unique.
pub IsValid-Kept : (env : Env) → Kept env IsValid
IsValid-Kept env = record {
  free = IsValid-ticks;
  insert_account = λ nuid password. record { at = insert_account_lem nuid password };
  set_password = λ id password. record { at = set_password_lem id password };
  insert_token = λ hash id. record { at = insert_token_lem env hash id };
  delete_tokens = λ id. record { at = delete_tokens_lem id };
  touch_token = λ hash. record { at = touch_token_lem env hash };
  insert_persona = λ id name. record { at = insert_persona_lem env id name };
  upsert_stat =
      λ id key value period_id. record { at = upsert_stat_lem env id key value period_id };
}
