-- ===== src/Store/Rank.antt =====
-- Ranks: `RankedStats`, `HistoricalRankedStats`, `rankForValue`, and `TopN` below.
pub mod TopN
pub mod Best
pub mod Bound
pub mod Position
use medge_net.Prelude.{
  ℕ, zero, suc, Bool, true, false, not, ◌&&◌, ◌||◌, List, [], ◌∷◌, ◌++◌, Option, none, some, Bytes,
  length, leb, ◌==◌, equal, if◌then◌else◌,
}
use medge_net.Prelude.Int.{ℤ, pos, ◌==ℤ◌}
use medge_net.Env.{Env}
use medge_net.Exec.{Run, pure, gets, ◌>>=◌}
use medge_net.Float.{Float64, nought, is_above, less, order}
use medge_net.Int64.{add_int64, sub_int64}
use medge_net.Store.{StatRow, PlayerRow, RunRow, LinkRow, Store, stmt, find, select, is_some}
use medge_net.Store.Historical.{historical_owner_offset, is_historical_owner, is_run}
use medge_net.Store.Stats.{is_stat, linked_historical_time, best_persona_id_for_key}
use medge_net.Store.Stats.Scope.{
  period_date_clause, since, sql_less, sql_at_most, is_time_key, player_of, link_of, link_of_player,
}
use medge_net.Text.{Option_map}

pub record RankedStat : Type 0 where
  pub rank : ℕ
  pub value : Float64

abbrev pub unranked : RankedStat
unranked = record { rank = 0; value = nought }

-- A row of `candidates`.
pub record Time : Type 0 where
  pub owner_id : ℤ
  pub value : Float64
  pub time_only : Bool

-- ORDER BY value ASC, time_only ASC
unfoldable pub is_before : Time → Time → Bool
is_before a b =
    sql_less a.value b.value || (order a.value == order b.value && (not a.time_only && b.time_only))

abbrev pub cons_some {ℓ} : {A : Type ℓ} → Option A → List A → List A
cons_some none rest = rest
cons_some (some y) rest = y ∷ rest

module _ {ℓ κ} {A : Type ℓ} {B : Type κ} where
  -- The rows of a join: each row with what it is joined to, if anything.
  unfoldable pub collect : (A → Option B) → List A → List B
  collect f [] = []
  collect f (x ∷ xs) = cons_some (f x) (collect f xs)

module _ {ℓ} {A : Type ℓ} (time : A → Time) where
  -- A row against the best rows of each owner so far. Of rows that tie, SQL may keep any.
  unfoldable pub add_best : A → List A → List A
  add_best x [] = x ∷ []
  add_best x (y ∷ ys) =
      let rest = add_best x ys in
      if (time y).owner_id ==ℤ (time x).owner_id
      then (if is_before (time y) (time x) then y ∷ ys else x ∷ ys)
      else y ∷ rest

  -- ROW_NUMBER() OVER (PARTITION BY owner_id ORDER BY value ASC, time_only ASC) = 1
  unfoldable pub best : List A → List A
  unfolding add_best
  best [] = []
  best (x ∷ xs) = add_best x (best xs)

abbrev pub in_scope : Bytes → ℤ → Option Bytes → StatRow → Bool
in_scope key period_id cutoff r =
    equal r.key key && r.period_id ==ℤ period_id && is_above r.value && since cutoff r.updated_at

abbrev pub run_in_scope : Bytes → ℤ → Option Bytes → RunRow → Bool
run_in_scope key period_id cutoff r =
    equal r.key key && r.period_id ==ℤ period_id && is_above r.value && since cutoff r.updated_at

abbrev pub run_time : RunRow → ℤ → Time
run_time r owner_id = record { owner_id = owner_id; value = r.value; time_only = true }

abbrev pub live_time : StatRow → Time
live_time r = record { owner_id = r.persona_id; value = r.value; time_only = false }

abbrev pub linked_time : Store → RunRow → Option Time
linked_time s r = Option_map (λ (l : LinkRow). run_time r l.persona_id) (link_of s r)

abbrev pub historical_owner : PlayerRow → ℤ
historical_owner p = add_int64 p.id (pos historical_owner_offset)

-- A player without a link: LEFT JOIN ... WHERE l.source_key IS NULL.
abbrev pub if_unlinked : Store → Option PlayerRow → Option PlayerRow
if_unlinked s player = if is_some (link_of_player s player) then none else player

abbrev pub unlinked_time : Store → RunRow → Option Time
unlinked_time s r =
    Option_map (λ (p : PlayerRow). run_time r (historical_owner p)) (if_unlinked s (player_of s r))

-- The candidates, before the bound on the value.
unfoldable pub candidate_times : Store → Bytes → ℤ → Option Bytes → List Time
unfolding collect
candidate_times s key period_id cutoff =
    let runs = select (run_in_scope key period_id cutoff) s.historical_runs in
    collect (λ r. some (live_time r)) (select (in_scope key period_id cutoff) s.stats)
    ++ (collect (linked_time s) runs ++ collect (unlinked_time s) runs)

-- `int(math.Max(float64(rank), 1))`
abbrev pub at_least_one : ℕ → ℕ
at_least_one n = if n == 0 then 1 else n

unfoldable pub rank_of : Store → Bytes → ℤ → Option Bytes → Float64 → ℕ
unfolding candidate_times best
rank_of s key period_id cutoff value = length (
    best (λ t. t)
      (select (λ (t : Time). sql_at_most t.value value) (candidate_times s key period_id cutoff)))

-- A linked historical time counts where it is less than the persona's own.
unfoldable pub better_time : Option Float64 → Float64 → Option Float64
better_time own linked =
    let better : Bool = elim own [ none ↦ true | some value ↦ less linked value ] in
    if is_above linked && better then some linked else own

module _ (env : Env) where
  unfoldable pub rank_for_value : Bytes → ℤ → Float64 → Run Store ℕ
  unfolding rank_of
  rank_for_value key period_id value = do
    cutoff ← period_date_clause env period_id
    rank ← stmt env (gets (λ s. rank_of s key period_id cutoff value))
    pure (at_least_one rank)

  unfoldable pub ranked : Bytes → ℤ → Option Float64 → Run Store RankedStat
  ranked key period_id none = pure unranked
  ranked key period_id (some value) = do
    rank ← rank_for_value key period_id value
    pure (record { rank = rank; value = value })

  unfoldable pub ranked_stats : ℤ → Bytes → ℤ → Run Store RankedStat
  unfolding ranked better_time
  ranked_stats persona_id key period_id = do
    effective ← best_persona_id_for_key env persona_id key period_id
    cutoff ← period_date_clause env period_id
    own ← stmt env (
        gets
          (λ s. find (λ r. is_stat effective key period_id r && since cutoff r.updated_at) s.stats))
    let value = Option_map (λ (r : StatRow). r.value) own
    if is_time_key key
        then (do
          linked ← linked_historical_time env effective key period_id
          ranked key period_id (better_time value linked))
        else ranked key period_id value

  unfoldable pub historical_ranked_stats : ℤ → Bytes → ℤ → Run Store RankedStat
  unfolding ranked
  historical_ranked_stats owner_id key period_id =
      let player_id = sub_int64 owner_id (pos historical_owner_offset) in
      if not (is_historical_owner owner_id) then pure unranked else do
        cutoff ← period_date_clause env period_id
        run ← stmt env (
            gets (λ s.
              find (λ r. is_run player_id key period_id r && since cutoff r.updated_at)
                s.historical_runs))
        ranked key period_id (Option_map (λ (r : RunRow). r.value) run)
