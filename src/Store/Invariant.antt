-- ===== src/Store/Invariant.antt =====
-- The unique columns of the schema.
pub mod Agree
pub mod Statements
pub mod Historical
use medge_net.Prelude.{
  ℕ, ◌≡◌, ◌≢◌, refl, List, [], ◌∷◌, map, Bytes, All, arith, equal_iff, if◌then◌else◌, ap, inl, inr,
  Option-cases,
}
use medge_net.Prelude.Int.{ℤ, ◌==ℤ◌}
use medge_net.Env.{Env}
use medge_net.Store.Calls.{Kept}
use medge_net.Store.{
  Account, Persona, LoginToken, Friend, StatRow, PlayerRow, RunRow, LinkRow, Store, find,
}
use medge_net.Store.Keys.{Distinct, Distinct-snoc, Distinct-select, find-eq-none, next_id_fresh}
use medge_net.Store.Accounts.{has_nuid, insert_account, set_password, set_password_rows}
use medge_net.Store.Personas.{has_name, insert_persona}
use medge_net.Store.Tokens.{has_hash, insert_token, delete_tokens, touch_token, touch_rows}

-- The primary key of `friends`.
abbrev pub link : Friend → ℤ × (ℤ × Bytes)
link f = (f.persona_id, (f.friend_persona_id, f.typ))

-- The primary key of `stats`, and that of `historical_runs`.
abbrev pub stat_key : StatRow → ℤ × (Bytes × ℤ)
stat_key r = (r.persona_id, (r.key, r.period_id))

abbrev pub run_key : RunRow → ℤ × (Bytes × ℤ)
run_key r = (r.player_id, (r.key, r.period_id))

-- historical_players(id, source_key), historical_account_links(source_key) and the keys of stats and
-- historical_runs are unique.
pub record StatTables (stats : List StatRow) (players : List PlayerRow) (runs : List RunRow)
    (links : List LinkRow) : Type 0 where
  pub stat_keys : Distinct stat_key stats
  pub player_ids : Distinct (λ (p : PlayerRow). p.id) players
  pub source_keys : Distinct (λ (p : PlayerRow). p.source_key) players
  pub run_keys : Distinct run_key runs
  pub linked_keys : Distinct (λ (l : LinkRow). l.source_key) links

-- accounts(id, nuid), personas(id, name), login_tokens(token_hash), the key of friends and those of the
-- statistics tables are unique.
pub record IsValid (s : Store) : Type 0 where
  pub account_ids : Distinct (λ (a : Account). a.id) s.accounts
  pub nuids : Distinct (λ (a : Account). a.nuid) s.accounts
  pub persona_ids : Distinct (λ (p : Persona). p.id) s.personas
  pub names : Distinct (λ (p : Persona). p.name) s.personas
  pub hashes : Distinct (λ (t : LoginToken). t.token_hash) s.login_tokens
  pub links : Distinct link s.friends
  pub tables : StatTables s.stats s.historical_players s.historical_runs s.historical_account_links
