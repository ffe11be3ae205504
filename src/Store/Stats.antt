-- ===== src/Store/Stats.antt =====
-- Statistics: `UpdateStats`, `GetStats`, and the times that linked historical players add to them.
pub mod Scope
pub mod Keeps
pub mod Closed
pub mod Updated
pub mod Stretches
pub mod Namesake
use medge_net.Prelude.{
  Bool, true, false, not, ◌&&◌, ◌||◌, List, [], ◌∷◌, map, Option, none, some, Bytes, equal,
  if◌then◌else◌,
}
use medge_net.Prelude.Int.{ℤ, pos, ◌==ℤ◌}
use medge_net.Env.{Env}
use medge_net.Exec.{ok, err, db_error, Run, pure, gets, ◌>>=◌, ◌>>◌}
use medge_net.Float.{Float64, nought, is_nan, is_nought, is_above, less, order}
use medge_net.Store.{Persona, StatRow, RunRow, LinkRow, Store, stmt, find, select, put}
use medge_net.Store.Personas.{has_id, persona_by_id}
use medge_net.Store.Stats.Scope.{period_date_clause, since, mem, is_time_key, link_of, sql_less}
use medge_net.Text.{is_empty}

-- A binding of a Go `map[string]float64`.
pub record Value : Type 0 where
  pub key : Bytes
  pub value : Float64

abbrev pub Values : Type 0
Values = List Value

-- `m[key] = value`
unfoldable pub set_value : Bytes → Float64 → Values → Values
set_value key value [] = record { key = key; value = value } ∷ []
set_value key value (v ∷ vs) =
    let rest = set_value key value vs in
    if equal v.key key then record { key = key; value = value } ∷ vs else v ∷ rest

-- `value, ok := m[key]`
unfoldable pub value_of : Values → Bytes → Option Float64
value_of [] key = none
value_of (v ∷ vs) key = let rest = value_of vs key in if equal v.key key then some v.value else rest

-- The primary key of `stats`.
abbrev pub is_stat : ℤ → Bytes → ℤ → StatRow → Bool
is_stat persona_id key period_id r =
    r.persona_id ==ℤ persona_id && equal r.key key && r.period_id ==ℤ period_id

-- SQLite keeps no negative zero.
abbrev pub stored : Float64 → Float64
stored x = if is_nought x then nought else x

-- INSERT INTO stats ... ON CONFLICT DO UPDATE. A NaN is bound as NULL, which the column refuses.
unfoldable pub upsert_stat : Env → ℤ → Bytes → Float64 → ℤ → Run Store (Unit {0})
upsert_stat env persona_id key value period_id s = if is_nan value then (err db_error, s) else (
  ok tt,
  record s {
    stats =
        put (is_stat persona_id key period_id)
          (record {
            persona_id = persona_id;
            key = key;
            value = stored value;
            period_id = period_id;
            updated_at = env.stamp s.ticks;
          })
          s.stats;
  },
)

abbrev pub stat_in : ℤ → ℤ → List Bytes → Option Bytes → StatRow → Bool
stat_in persona_id period_id keys cutoff r =
    r.persona_id ==ℤ persona_id
    && r.period_id ==ℤ period_id
    && mem r.key keys
    && since cutoff r.updated_at

-- `out[key] = value` for each row.
unfoldable pub stat_values : List StatRow → Values → Values
stat_values [] out = out
stat_values (r ∷ rs) out = stat_values rs (set_value r.key r.value out)

-- A value that is missing, or greater, is replaced.
unfoldable pub keep_least : Bytes → Float64 → Values → Values
keep_least key value out = elim (value_of out key) [
  | none ↦ set_value key value out
  | some current ↦ if less value current then set_value key value out else out
]

-- SELECT hr.key, MIN(hr.value) ... GROUP BY hr.key
unfoldable pub least_times : List RunRow → Values → Values
least_times [] out = out
least_times (r ∷ rs) out = least_times rs (keep_least r.key r.value out)

unfoldable pub keep_better : Values → Values → Values
keep_better [] out = out
keep_better (v ∷ vs) out = keep_better vs (keep_least v.key v.value out)

abbrev owns_link : ℤ → Option LinkRow → Bool
owns_link persona_id none = false
owns_link persona_id (some l) = l.persona_id ==ℤ persona_id

-- The runs of the historical players that are linked to a persona.
abbrev pub linked_in : Store → ℤ → ℤ → List Bytes → Option Bytes → RunRow → Bool
linked_in s persona_id period_id keys cutoff r =
    owns_link persona_id (link_of s r)
    && r.period_id ==ℤ period_id
    && mem r.key keys
    && is_above r.value
    && since cutoff r.updated_at

-- ORDER BY st.value ASC LIMIT 1. Of rows that tie, SQL may give any.
abbrev pub lesser : StatRow → Option StatRow → StatRow
lesser r none = r
lesser r (some best) = if sql_less best.value r.value then best else r

unfoldable pub least_row : List StatRow → Option StatRow
least_row [] = none
least_row (r ∷ rs) = some (lesser r (least_row rs))

abbrev pub is_named : Bytes → Option Persona → Bool
is_named name none = false
is_named name (some p) = equal p.name name

abbrev pub named_in : Store → Bytes → Bytes → ℤ → Option Bytes → StatRow → Bool
named_in s name key period_id cutoff r =
    is_named name (find (has_id r.persona_id) s.personas)
    && equal r.key key
    && r.period_id ==ℤ period_id
    && is_above r.value
    && since cutoff r.updated_at

abbrev pub owner_or : ℤ → Option StatRow → ℤ
owner_or id none = id
owner_or id (some r) = r.persona_id

module _ (env : Env) where
  unfoldable pub update_stats : ℤ → Values → ℤ → Run Store (Unit {0})
  update_stats persona_id [] period_id = pure tt
  update_stats persona_id (v ∷ vs) period_id = do
    stmt env (upsert_stat env persona_id v.key v.value period_id)
    update_stats persona_id vs period_id

  unfoldable pub linked_historical_stats : ℤ → List Bytes → ℤ → Run Store Values
  linked_historical_stats persona_id keys period_id =
      let time_keys = select is_time_key keys in
      if persona_id ==ℤ pos 0 || is_empty keys || is_empty time_keys then pure [] else do
        cutoff ← period_date_clause env period_id
        runs ← stmt env (
            gets
              (λ s. select (linked_in s persona_id period_id time_keys cutoff) s.historical_runs))
        pure (least_times runs [])

  unfoldable pub linked_historical_time : ℤ → Bytes → ℤ → Run Store Float64
  linked_historical_time persona_id key period_id = do
    stats ← linked_historical_stats persona_id (key ∷ []) period_id
    pure (elim (value_of stats key) [ none ↦ nought | some value ↦ value ])

  unfoldable pub best_of_name : ℤ → Bytes → ℤ → Option Persona → Run Store ℤ
  best_of_name persona_id key period_id none = pure persona_id
  best_of_name persona_id key period_id (some p) = do
    cutoff ← period_date_clause env period_id
    best ←
        stmt env (gets (λ s. least_row (select (named_in s p.name key period_id cutoff) s.stats)))
    pure (owner_or persona_id best)

  unfoldable pub best_persona_id_for_key : ℤ → Bytes → ℤ → Run Store ℤ
  unfolding best_of_name
  best_persona_id_for_key persona_id key period_id =
      if persona_id ==ℤ pos 0 || not (is_time_key key)
      then pure persona_id
      else do persona ← persona_by_id env persona_id; best_of_name persona_id key period_id persona

  unfoldable pub best_for_first : ℤ → ℤ → Option Bytes → Run Store ℤ
  best_for_first persona_id period_id none = pure persona_id
  best_for_first persona_id period_id (some key) = best_persona_id_for_key persona_id key period_id

  -- The first time key decides.
  unfoldable pub best_persona_id_for_keys : ℤ → List Bytes → ℤ → Run Store ℤ
  unfolding best_for_first
  best_persona_id_for_keys persona_id keys period_id =
      best_for_first persona_id period_id (find is_time_key keys)

  unfoldable pub get_stats : ℤ → List Bytes → ℤ → Run Store Values
  get_stats persona_id keys period_id = if is_empty keys then pure [] else do
    effective ← best_persona_id_for_keys persona_id keys period_id
    cutoff ← period_date_clause env period_id
    rows ← stmt env (gets (λ s. select (stat_in effective period_id keys cutoff) s.stats))
    linked ← linked_historical_stats effective keys period_id
    pure (keep_better linked (stat_values rows []))
