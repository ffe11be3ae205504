-- ===== src/Store.antt =====
-- server/storage/storage.go: the database. Each table is the list of its rows, oldest first; each SQL
-- statement of the source is one step on the tables, which fails where `Env.fault` says so.
pub mod Keys
pub mod Rules
pub mod Calls
pub mod Invariant
pub mod Accounts
pub mod Tokens
pub mod Personas
pub mod Friends
pub mod Stats
pub mod Historical
pub mod Rank
use medge_net.Prelude.{
  ℕ, ◌+◌, Bool, true, false, not, List, [], ◌∷◌, ◌++◌, map, Option, none, some, Bytes, leb,
  if◌then◌else◌,
}
use medge_net.Prelude.Int.{ℤ, pos, negsuc}
use medge_net.Env.{Env}
use medge_net.Float.{Float64}
use medge_net.Exec.{Error, db_error, Outcome, ok, err, Run}

pub record Account : Type 0 where
  pub id : ℤ
  pub nuid : Bytes
  pub password : Bytes

-- `created_at` is the column's text; a scan into a string gives `Env.scanned` of it.
pub record Persona : Type 0 where
  pub id : ℤ
  pub account_id : ℤ
  pub name : Bytes
  pub created_at : Bytes

pub record Association : Type 0 where
  pub id : ℤ
  pub name : Bytes

-- A row of `login_tokens`.
pub record LoginToken : Type 0 where
  pub token_hash : Bytes
  pub account_id : ℤ
  pub created_at : Bytes
  pub last_used_at : Bytes

-- A row of `friends`.
pub record Friend : Type 0 where
  pub persona_id : ℤ
  pub friend_persona_id : ℤ
  pub typ : Bytes

-- A row of `stats`.
pub record StatRow : Type 0 where
  pub persona_id : ℤ
  pub key : Bytes
  pub value : Float64
  pub period_id : ℤ
  pub updated_at : Bytes

-- A row of `historical_players`.
pub record PlayerRow : Type 0 where
  pub id : ℤ
  pub source_key : Bytes
  pub name : Bytes
  pub created_at : Bytes

-- A row of `historical_runs`.
pub record RunRow : Type 0 where
  pub player_id : ℤ
  pub stretch_id : ℤ
  pub key : Bytes
  pub value : Float64
  pub period_id : ℤ
  pub run_id : Bytes
  pub weblink : Bytes
  pub updated_at : Bytes

-- A row of `historical_account_links`.
pub record LinkRow : Type 0 where
  pub source_key : Bytes
  pub persona_id : ℤ

pub record Store : Type 0 where
  pub accounts : List Account
  pub personas : List Persona
  pub friends : List Friend
  pub login_tokens : List LoginToken
  pub stats : List StatRow
  pub historical_players : List PlayerRow
  pub historical_runs : List RunRow
  pub historical_account_links : List LinkRow
  pub ticks : ℕ

abbrev pub empty_store : Store
empty_store = record {
  accounts = [];
  personas = [];
  friends = [];
  login_tokens = [];
  stats = [];
  historical_players = [];
  historical_runs = [];
  historical_account_links = [];
  ticks = 0;
}

-- A fresh INTEGER PRIMARY KEY: one more than the largest, or 1. Every id was made so.
top_id : List ℤ → ℕ
top_id [] = 0
top_id (pos n ∷ ids) = let m = top_id ids in if leb n m then m else n
top_id (negsuc n ∷ ids) = top_id ids

unfoldable pub next_id : List ℤ → ℤ
unfolding top_id
next_id ids = pos (top_id ids + 1)

-- One statement on the database.
unfoldable pub stmt {ℓ} : {A : Type ℓ} → Env → Run Store A → Run Store A
stmt env m s =
    let s' = record s { ticks = s.ticks + 1 } in
    if env.fault s.ticks then (err db_error, s') else m s'

-- `rand.Read` of `n` bytes.
unfoldable pub draw : Env → ℕ → Run Store Bytes
draw env n s = (ok (env.random s.ticks n), record s { ticks = s.ticks + 1 })

module _ {ℓ} {A : Type ℓ} where
  -- The first row that a WHERE clause selects.
  unfoldable pub find : (A → Bool) → List A → Option A
  find p [] = none
  find p (x ∷ xs) = if p x then some x else find p xs

  -- All rows that it selects.
  unfoldable pub select : (A → Bool) → List A → List A
  select p [] = []
  select p (x ∷ xs) = let rest = select p xs in if p x then x ∷ rest else rest

  -- ON CONFLICT DO UPDATE: the row in conflict gives way to the new one, which else comes last.
  unfoldable pub put : (A → Bool) → A → List A → List A
  put p row [] = row ∷ []
  put p row (x ∷ xs) = let rest = put p row xs in if p x then row ∷ xs else x ∷ rest

abbrev pub is_some {ℓ} : {A : Type ℓ} → Option A → Bool
is_some none = false
is_some (some _) = true
