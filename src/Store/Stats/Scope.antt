-- ===== src/Store/Stats/Scope.antt =====
-- What the WHERE clauses of the statistics queries share: keys, periods and links.
use medge_net.Prelude.{
  Bool, true, false, ◌||◌, List, [], ◌∷◌, Option, none, some, Bytes, codes, ltb, leb, equal,
}
use medge_net.Prelude.Int.{ℤ, ◌==ℤ◌}
use medge_net.Calendar.{period_cutoff, format_day}
use medge_net.Env.{Env}
use medge_net.Exec.{ok, Run}
use medge_net.Float.{Float64, order}
use medge_net.Store.{PlayerRow, RunRow, LinkRow, Store, find}
use medge_net.Store.Friends.{bytes_leb}
use medge_net.Text.{Option_map, has_suffix}

-- `key IN (...)`
unfoldable pub mem : Bytes → List Bytes → Bool
mem key [] = false
mem key (k ∷ ks) = equal k key || mem key ks

-- Keys of times, for which less is better.
unfoldable pub is_time_key : Bytes → Bool
is_time_key key = has_suffix key (codes "_20")

-- Comparisons of SQL. The database holds no NaN, and none is bound in a comparison.
abbrev pub sql_less : Float64 → Float64 → Bool
sql_less x y = ltb (order x) (order y)

abbrev pub sql_at_most : Float64 → Float64 → Bool
sql_at_most x y = leb (order x) (order y)

-- `periodDateClauseFor`: the first moment of the current period, if it has one.
unfoldable pub period_date_clause : Env → ℤ → Run Store (Option Bytes)
period_date_clause env period_id s =
    (ok (Option_map format_day (period_cutoff period_id (env.today s.ticks))), s)

-- AND updated_at >= ?
abbrev pub since : Option Bytes → Bytes → Bool
since none updated_at = true
since (some start) updated_at = bytes_leb start updated_at

abbrev pub has_source : Bytes → LinkRow → Bool
has_source source_key l = equal l.source_key source_key

abbrev pub is_player : ℤ → PlayerRow → Bool
is_player id p = p.id ==ℤ id

-- JOIN historical_players hp ON hp.id = hr.player_id
unfoldable pub player_of : Store → RunRow → Option PlayerRow
player_of s r = find (is_player r.player_id) s.historical_players

abbrev pub link_of_player : Store → Option PlayerRow → Option LinkRow
link_of_player s none = none
link_of_player s (some p) = find (has_source p.source_key) s.historical_account_links

-- JOIN historical_account_links l ON l.source_key = hp.source_key
unfoldable pub link_of : Store → RunRow → Option LinkRow
unfolding player_of
link_of s r = link_of_player s (player_of s r)
