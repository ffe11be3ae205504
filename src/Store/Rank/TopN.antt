-- ===== src/Store/Rank/TopN.antt =====
-- `TopN`: a page of a leaderboard.
pub mod Sorted
use medge_net.Prelude.{
  ℕ, ◌+◌, Bool, true, false, List, [], ◌∷◌, ◌++◌, Option, none, some, Bytes, take, drop, equal,
  if◌then◌else◌,
}
use medge_net.Prelude.Int.{ℤ, pos, negsuc}
use medge_net.Env.{Env}
use medge_net.Exec.{Run, pure, gets, ◌>>=◌}
use medge_net.Float.{Float64, order}
use medge_net.Int64.{sub_int64, max_nat}
use medge_net.Store.{Persona, StatRow, PlayerRow, RunRow, LinkRow, Store, stmt, find, select}
use medge_net.Store.Historical.{historical_stats}
use medge_net.Store.Historical.Names.{sanitize_historical_name}
use medge_net.Store.Personas.{has_id}
use medge_net.Store.Rank.{
  Time, collect, best, in_scope, run_in_scope, live_time, run_time, historical_owner, if_unlinked,
}
use medge_net.Store.Stats.{Value, Values, set_value, get_stats}
use medge_net.Store.Stats.Scope.{period_date_clause, sql_less, player_of, link_of}
use medge_net.Text.{Option_map}

-- A row of `candidates` with the name and the column `imported`.
pub record Candidate : Type 0 where
  pub time : Time
  pub name : Bytes
  pub imported : Bool

pub record TopEntry : Type 0 where
  pub persona_id : ℤ
  pub persona_name : Bytes
  pub rank : ℕ
  pub values : Values
  pub imported : Bool
  pub time_only : Bool

abbrev pub of_persona : Time → Persona → Candidate
of_persona t p = record { time = record t { owner_id = p.id }; name = p.name; imported = false }

abbrev pub live_candidate : Store → StatRow → Option Candidate
live_candidate s r = Option_map (of_persona (live_time r)) (find (has_id r.persona_id) s.personas)

abbrev pub linked_to : Store → RunRow → Option LinkRow → Option Candidate
linked_to s r none = none
linked_to s r (some l) =
    Option_map (of_persona (run_time r l.persona_id)) (find (has_id l.persona_id) s.personas)

abbrev pub linked_candidate : Store → RunRow → Option Candidate
linked_candidate s r = linked_to s r (link_of s r)

abbrev pub imported_candidate : Store → RunRow → Option Candidate
imported_candidate s r =
    Option_map
      (λ (p : PlayerRow). record {
        time = run_time r (historical_owner p);
        name = p.name;
        imported = true;
      })
      (if_unlinked s (player_of s r))

unfoldable pub candidates : Store → Bytes → ℤ → Option Bytes → List Candidate
unfolding collect
candidates s key period_id cutoff =
    let runs = select (run_in_scope key period_id cutoff) s.historical_runs in
    collect (live_candidate s) (select (in_scope key period_id cutoff) s.stats)
    ++ (collect (linked_candidate s) runs ++ collect (imported_candidate s) runs)

-- ORDER BY value ASC. Rows that tie may come in any order.
unfoldable pub insert_by_value : Candidate → List Candidate → List Candidate
insert_by_value x [] = x ∷ []
insert_by_value x (y ∷ ys) =
    let rest = insert_by_value x ys in
    if sql_less y.time.value x.time.value then y ∷ rest else x ∷ y ∷ ys

unfoldable pub sort_by_value : List Candidate → List Candidate
unfolding insert_by_value
sort_by_value [] = []
sort_by_value (x ∷ xs) = insert_by_value x (sort_by_value xs)

unfoldable pub leaderboard : Store → Bytes → ℤ → Option Bytes → List Candidate
unfolding candidates sort_by_value best
leaderboard s key period_id cutoff =
    sort_by_value (best (λ (c : Candidate). c.time) (candidates s key period_id cutoff))

-- The extra values beside the one that the list is sorted by.
unfoldable pub add_extra : Bytes → Values → Values → Values
add_extra key [] out = out
add_extra key (v ∷ vs) out =
    add_extra key vs (if equal v.key key then out else set_value v.key v.value out)

-- `max(minRank-1, 0)` and `max(maxRank-offset, 1)`.
unfoldable pub offset_of : ℤ → ℕ
offset_of min_rank = max_nat (sub_int64 min_rank (pos 1)) 0

unfoldable pub limit_of : ℤ → ℕ → ℕ
limit_of max_rank offset = max_nat (sub_int64 max_rank (pos offset)) 1

module _ (env : Env) (key : Bytes) (extra_keys : List Bytes) (period_id : ℤ) where
  unfoldable pub extra_values : Candidate → Run Store Values
  extra_values c =
      if c.imported
      then historical_stats env c.time.owner_id extra_keys period_id
      else if c.time.time_only
      then pure []
      else get_stats env c.time.owner_id extra_keys period_id

  unfoldable pub top_entry : ℕ → Candidate → Run Store TopEntry
  unfolding extra_values add_extra
  top_entry rank c = do
    extra ← extra_values c
    pure (record {
      persona_id = c.time.owner_id;
      persona_name = if c.imported then sanitize_historical_name c.name else c.name;
      rank = rank;
      values = add_extra key extra (set_value key c.time.value []);
      imported = c.imported;
      time_only = c.time.time_only;
    })

  -- The loop over the rows, with the rank of the next.
  unfoldable pub top_entries : ℕ → List Candidate → Run Store (List TopEntry)
  unfolding top_entry
  top_entries rank [] = pure []
  top_entries rank (c ∷ cs) = do
    entry ← top_entry rank c
    rest ← top_entries (rank + 1) cs
    pure (entry ∷ rest)

  unfoldable pub top_n : ℤ → ℤ → Run Store (List TopEntry)
  unfolding top_entries offset_of limit_of leaderboard
  top_n min_rank max_rank = do
    let offset = offset_of min_rank
    cutoff ← period_date_clause env period_id
    rows ← stmt env (
        gets
          (λ s. take (limit_of max_rank offset) (drop offset (leaderboard s key period_id cutoff))))
    top_entries (offset + 1) rows
