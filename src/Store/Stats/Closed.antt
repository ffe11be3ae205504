-- ===== src/Store/Stats/Closed.antt =====
-- What the statistics functions that only read are built from.
use medge_net.Prelude.{ℕ, List, [], ◌∷◌, Option, none, some, Bytes}
use medge_net.Exec.{gets}
use medge_net.Store.Personas.{persona_by_id}
use medge_net.Prelude.Int.{ℤ}
use medge_net.Env.{Env}
use medge_net.Exec.Closed.{Property, Closed}
use medge_net.Float.{Float64}
use medge_net.Store.{Persona, Store, stmt}
use medge_net.Store.Historical.{historical_stats}
use medge_net.Store.Rank.{rank_for_value, ranked, ranked_stats, historical_ranked_stats}
use medge_net.Store.Rank.TopN.{Candidate, extra_values, top_entry, top_entries, top_n}
use medge_net.Store.Stats.{
  linked_historical_stats, linked_historical_time, best_of_name, best_persona_id_for_key,
  best_for_first, best_persona_id_for_keys, get_stats,
}
use medge_net.Store.Stats.Scope.{period_date_clause}

-- A property of calls of the store that its statements that read have, and what is built from them.
pub record Reading {κ} (env : Env) (T : Property {κ} Store) : Type (κ ⊔ 1) where
  pub run : Closed T
  pub reads : {A : Type 0} (f : Store → A) → T A (stmt env (gets f))
  pub clock : (period_id : ℤ) → T (Option Bytes) (period_date_clause env period_id)

module _ {κ} {T : Property {κ} Store} (env : Env) (reading : Reading env T) where
  persona_by_id-Closed : (id : ℤ) → T _ (persona_by_id env id)
  unfolding persona_by_id
  persona_by_id-Closed id = reading.reads _

  linked_historical_stats-Closed :
      (id : ℤ) (keys : List Bytes) (period_id : ℤ)
      → T _ (linked_historical_stats env id keys period_id)
  unfolding linked_historical_stats
  linked_historical_stats-Closed id keys period_id =
      search (
        reading.run.pure_lem, reading.run.bind_lem, reading.run.if_lem, reading.reads,
        reading.clock,
      )

  linked_historical_time-Closed :
      (id : ℤ) (key : Bytes) (period_id : ℤ) → T _ (linked_historical_time env id key period_id)
  unfolding linked_historical_time
  linked_historical_time-Closed id key period_id = search (
    reading.run.pure_lem, reading.run.bind_lem, reading.run.if_lem, linked_historical_stats-Closed,
  )

  best_of_name-Closed :
      (id : ℤ) (key : Bytes) (period_id : ℤ) (found : Option Persona)
      → T _ (best_of_name env id key period_id found)
  unfolding best_of_name
  best_of_name-Closed id key period_id none = search (reading.run.pure_lem)
  best_of_name-Closed id key period_id (some p) =
      search (
        reading.run.pure_lem, reading.run.bind_lem, reading.run.if_lem, reading.reads,
        reading.clock,
      )

  pub best_persona_id_for_key-Closed :
      (id : ℤ) (key : Bytes) (period_id : ℤ) → T _ (best_persona_id_for_key env id key period_id)
  unfolding best_persona_id_for_key
  best_persona_id_for_key-Closed id key period_id = search (
    reading.run.pure_lem, reading.run.bind_lem, reading.run.if_lem, persona_by_id-Closed,
    best_of_name-Closed,
  )

  best_for_first-Closed :
      (id period_id : ℤ) (found : Option Bytes) → T _ (best_for_first env id period_id found)
  unfolding best_for_first
  best_for_first-Closed id period_id none = search (reading.run.pure_lem)
  best_for_first-Closed id period_id (some key) = best_persona_id_for_key-Closed id key period_id

  best_persona_id_for_keys-Closed :
      (id : ℤ) (keys : List Bytes) (period_id : ℤ)
      → T _ (best_persona_id_for_keys env id keys period_id)
  unfolding best_persona_id_for_keys
  best_persona_id_for_keys-Closed id keys period_id = best_for_first-Closed id period_id _

  pub get_stats-Closed :
      (id : ℤ) (keys : List Bytes) (period_id : ℤ) → T _ (get_stats env id keys period_id)
  unfolding get_stats
  get_stats-Closed id keys period_id =
      search
        (
          reading.run.pure_lem, reading.run.bind_lem, reading.run.if_lem, reading.reads,
          reading.clock, best_persona_id_for_keys-Closed, linked_historical_stats-Closed,
        )
        depth 14

  rank_for_value-Closed :
      (key : Bytes) (period_id : ℤ) (value : Float64) → T _ (rank_for_value env key period_id value)
  unfolding rank_for_value
  rank_for_value-Closed key period_id value =
      search (
        reading.run.pure_lem, reading.run.bind_lem, reading.run.if_lem, reading.reads,
        reading.clock,
      )

  ranked-Closed :
      (key : Bytes) (period_id : ℤ) (value : Option Float64) → T _ (ranked env key period_id value)
  unfolding ranked
  ranked-Closed key period_id none = search (reading.run.pure_lem)
  ranked-Closed key period_id (some value) =
      search (reading.run.pure_lem, reading.run.bind_lem, reading.run.if_lem, rank_for_value-Closed)

  pub ranked_stats-Closed :
      (id : ℤ) (key : Bytes) (period_id : ℤ) → T _ (ranked_stats env id key period_id)
  unfolding ranked_stats
  ranked_stats-Closed id key period_id =
      search
        (
          reading.run.pure_lem, reading.run.bind_lem, reading.run.if_lem, reading.reads,
          reading.clock, best_persona_id_for_key-Closed, linked_historical_time-Closed,
          ranked-Closed,
        )
        depth 14

  pub historical_stats-Closed :
      (id : ℤ) (keys : List Bytes) (period_id : ℤ) → T _ (historical_stats env id keys period_id)
  unfolding historical_stats
  historical_stats-Closed id keys period_id =
      search (
        reading.run.pure_lem, reading.run.bind_lem, reading.run.if_lem, reading.reads,
        reading.clock,
      )

  pub historical_ranked_stats-Closed :
      (id : ℤ) (key : Bytes) (period_id : ℤ) → T _ (historical_ranked_stats env id key period_id)
  unfolding historical_ranked_stats
  historical_ranked_stats-Closed id key period_id = search (
    reading.run.pure_lem, reading.run.bind_lem, reading.run.if_lem, reading.reads, reading.clock,
    ranked-Closed,
  )

  module _ (key : Bytes) (extra_keys : List Bytes) (period_id : ℤ) where
    extra_values-Closed : (c : Candidate) → T _ (extra_values env key extra_keys period_id c)
    unfolding extra_values
    extra_values-Closed c = search (
      reading.run.pure_lem, reading.run.bind_lem, reading.run.if_lem, historical_stats-Closed,
      get_stats-Closed,
    )

    top_entries-Closed :
        (rank : ℕ) (cs : List Candidate) → T _ (top_entries env key extra_keys period_id rank cs)
    unfolding top_entries top_entry
    top_entries-Closed rank [] = search (reading.run.pure_lem)
    top_entries-Closed rank (c ∷ cs) = search (
      reading.run.pure_lem,
      reading.run.bind_lem,
      reading.run.if_lem,
      extra_values-Closed,
      λ (n : ℕ). top_entries-Closed n cs,
    )

    pub top_n-Closed :
        (min_rank max_rank : ℤ) → T _ (top_n env key extra_keys period_id min_rank max_rank)
    unfolding top_n
    top_n-Closed min_rank max_rank = search (
      reading.run.pure_lem, reading.run.bind_lem, reading.run.if_lem, reading.reads, reading.clock,
      top_entries-Closed,
    )
