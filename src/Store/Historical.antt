-- ===== src/Store/Historical.antt =====
-- Historical players: their runs, their names and the personas that they are linked to.
pub mod Names
use medge_net.Prelude.{
  ℕ, ◌+◌, Bool, true, false, not, ◌&&◌, ◌||◌, List, [], ◌∷◌, ◌++◌, map, Option, none, some, Bytes,
  leb, equal, if◌then◌else◌,
}
use medge_net.Prelude.Int.{ℤ, pos, negsuc, ◌==ℤ◌}
use medge_net.Env.{Env}
use medge_net.Exec.{ok, err, db_error, no_rows, Run, pure, fail, gets, ◌>>=◌, ◌>>◌}
use medge_net.Float.{Float64, is_nan}
use medge_net.Int64.{sub_int64}
use medge_net.Store.{
  Persona, PlayerRow, RunRow, LinkRow, Store, stmt, find, select, next_id, is_some, put,
}
use medge_net.Store.Personas.{persona_by_id}
use medge_net.Store.Stats.{Values, set_value, stored}
use medge_net.Store.Stats.Scope.{period_date_clause, since, mem, has_source}
use medge_net.Text.{is_empty}

-- `HistoricalOwnerOffset` and `IsHistoricalOwner`.
abbrev pub historical_owner_offset : ℕ
historical_owner_offset = 1000000000

unfoldable pub is_historical_owner : ℤ → Bool
is_historical_owner (pos n) = leb historical_owner_offset n
is_historical_owner (negsuc n) = false

abbrev pub has_source_key : Bytes → PlayerRow → Bool
has_source_key source_key p = equal p.source_key source_key

-- INSERT OR IGNORE INTO historical_players; the source key is unique.
unfoldable pub insert_player : Env → Bytes → Bytes → Run Store (Unit {0})
insert_player env source_key name s =
    if is_some (find (has_source_key source_key) s.historical_players) then (ok tt, s) else (
      ok tt,
      record s {
        historical_players =
            s.historical_players
            ++ (record {
              id = next_id (map (λ (p : PlayerRow). p.id) s.historical_players);
              source_key = source_key;
              name = name;
              created_at = env.stamp s.ticks;
            })
              ∷ [];
      },
    )

-- The primary key of `historical_runs`.
abbrev pub is_run : ℤ → Bytes → ℤ → RunRow → Bool
is_run player_id key period_id r =
    r.player_id ==ℤ player_id && equal r.key key && r.period_id ==ℤ period_id

-- The run of a source key's player; a player or a value that is missing is NULL.
abbrev pub replace_run : Option PlayerRow → RunRow → Run Store (Unit {0})
replace_run none run s = (err db_error, s)
replace_run (some p) run s = if is_nan run.value then (err db_error, s) else (
  ok tt,
  record s {
    historical_runs =
        select (λ r. not (is_run p.id run.key run.period_id r)) s.historical_runs
        ++ (record run { player_id = p.id; value = stored run.value }) ∷ [];
  },
)

-- INSERT OR REPLACE INTO historical_runs; the row's own `player_id` is not read.
unfoldable pub put_run : Bytes → RunRow → Run Store (Unit {0})
put_run source_key run s = replace_run (find (has_source_key source_key) s.historical_players) run s

-- INSERT INTO historical_account_links ... ON CONFLICT DO UPDATE.
unfoldable pub set_link : Bytes → ℤ → Run Store (Unit {0})
set_link source_key persona_id s = (
  ok tt,
  record s {
    historical_account_links =
        put (has_source source_key) (record { source_key = source_key; persona_id = persona_id })
          s.historical_account_links;
  },
)

unfoldable pub delete_link : Bytes → Run Store (Unit {0})
delete_link source_key s = (
  ok tt,
  record s {
    historical_account_links =
        select (λ l. not (has_source source_key l)) s.historical_account_links;
  },
)

-- The values of some runs, as `out[key] = value` sets them.
unfoldable pub run_values : List RunRow → Values → Values
run_values [] out = out
run_values (r ∷ rs) out = run_values rs (set_value r.key r.value out)

abbrev pub run_in : ℤ → ℤ → List Bytes → Option Bytes → RunRow → Bool
run_in player_id period_id keys cutoff r =
    r.player_id ==ℤ player_id
    && r.period_id ==ℤ period_id
    && mem r.key keys
    && since cutoff r.updated_at

module _ (env : Env) where
  -- `run.player_id` is a placeholder, which the statement replaces.
  unfoldable pub add_historical_run : Bytes → Bytes → RunRow → Run Store (Unit {0})
  add_historical_run source_key name run = do
    stmt env (insert_player env source_key name)
    stmt env (put_run source_key run)

  unfoldable pub link_player : Bytes → ℤ → Bool → Run Store (Unit {0})
  link_player source_key persona_id false = fail no_rows
  link_player source_key persona_id true = stmt env (set_link source_key persona_id)

  unfoldable pub link_persona : Bytes → ℤ → Option Persona → Run Store (Unit {0})
  unfolding link_player
  link_persona source_key persona_id none = fail no_rows
  link_persona source_key persona_id (some _) = do
    one ← stmt env (gets (λ s. is_some (find (has_source_key source_key) s.historical_players)))
    link_player source_key persona_id one

  unfoldable pub link_historical_account : Bytes → ℤ → Run Store (Unit {0})
  unfolding link_persona
  link_historical_account source_key persona_id = do
    persona ← persona_by_id env persona_id
    link_persona source_key persona_id persona

  unfoldable pub unlink_historical_account : Bytes → Run Store (Unit {0})
  unlink_historical_account source_key = stmt env (delete_link source_key)

  unfoldable pub historical_stats : ℤ → List Bytes → ℤ → Run Store Values
  historical_stats owner_id keys period_id =
      let player_id = sub_int64 owner_id (pos historical_owner_offset) in
      if is_empty keys || not (is_historical_owner owner_id) then pure [] else do
        cutoff ← period_date_clause env period_id
        rows ←
            stmt env (gets (λ s. select (run_in player_id period_id keys cutoff) s.historical_runs))
        pure (run_values rows [])
