-- ===== src/Fesl/Rank/Closed.antt =====
-- What the statistics handlers that only read are built from.
use medge_net.Prelude.{ℕ, List, [], ◌∷◌, Bytes, codes}
use medge_net.Prelude.Int.{ℤ}
use medge_net.Env.{Env}
use medge_net.Exec.{Run}
use medge_net.Exec.Closed.{Property, Closed}
use medge_net.Packet.{Packet, params_map}
use medge_net.Store.{Store}
use medge_net.Store.Stats.Closed as StatsClosed
use medge_net.Store.Stats.Closed.{Reading}
use medge_net.Fesl.Rank.{
  stats_of, ranked_of, stat_group_rank_value, handle_get_stats, ranked_or_zero, ranked_lines,
  handle_get_ranked_stats, stats_for_owners, handle_get_stats_for_owners, owner_ranks,
  ranks_for_owners, handle_get_ranked_stats_for_owners,
}
use medge_net.Fesl.Rank.Requests.{OwnerRequest, parse_key_list, parse_owner_list}
use medge_net.Fesl.Rank.TopN.{handle_get_top_n_and_stats}
use medge_net.Fesl.Session.{Session, World, on_store, current}

-- A property of calls on a connection that calls of the store hand on to it.
pub record OnWorld {κ} (T : Property {κ} Store) (U : Property {κ} World) : Type (κ ⊔ 1) where
  pub run : Closed U
  pub on_store_lem : {A : Type 0} (m : Run Store A) → T A m → U A (on_store m)
  pub current_lem : U Session current

module _ {κ} {T : Property {κ} Store} {U : Property {κ} World} (env : Env) (reading : Reading env T)
    (world : OnWorld T U) where
  stats_of-Closed :
      (id : ℤ) (keys : List Bytes) (period_id : ℤ) → T _ (stats_of env id keys period_id)
  unfolding stats_of
  stats_of-Closed id keys period_id = search (
    reading.run.pure_lem,
    reading.run.bind_lem,
    reading.run.if_lem,
    StatsClosed.historical_stats-Closed env reading,
    StatsClosed.get_stats-Closed env reading,
  )

  ranked_of-Closed : (id : ℤ) (key : Bytes) (period_id : ℤ) → T _ (ranked_of env id key period_id)
  unfolding ranked_of
  ranked_of-Closed id key period_id = search (
    reading.run.pure_lem,
    reading.run.bind_lem,
    reading.run.if_lem,
    StatsClosed.historical_ranked_stats-Closed env reading,
    StatsClosed.ranked_stats-Closed env reading,
  )

  stat_group_rank_value-Closed :
      (id : ℤ) (keys : List Bytes) (period_id : ℤ)
      → T _ (stat_group_rank_value env id keys period_id)
  unfolding stat_group_rank_value
  stat_group_rank_value-Closed id keys period_id =
      search (reading.run.pure_lem, reading.run.bind_lem, reading.run.if_lem, ranked_of-Closed)

  pub handle_get_stats-Closed :
      (pkt : Packet)
      → U _ (parse_key_list env (params_map pkt.params) (codes "keys"))
      → U _ (handle_get_stats env pkt)
  unfolding handle_get_stats
  handle_get_stats-Closed pkt keys_read =
      search
        (
          world.run.pure_lem, world.run.bind_lem, world.run.if_lem, world.on_store_lem,
          world.current_lem, keys_read, stats_of-Closed, stat_group_rank_value-Closed,
        )
        depth 14

  ranked_or_zero-Closed :
      (id : ℤ) (key : Bytes) (period_id : ℤ) → T _ (ranked_or_zero env id key period_id)
  unfolding ranked_or_zero
  ranked_or_zero-Closed id key period_id =
      search (reading.run.pure_lem, reading.run.bind_lem, reading.run.if_lem, ranked_of-Closed)

  ranked_lines-Closed :
      (id period_id : ℤ) (i : ℕ) (keys : List Bytes) → T _ (ranked_lines env id period_id i keys)
  unfolding ranked_lines
  ranked_lines-Closed id period_id i [] = search (reading.run.pure_lem)
  ranked_lines-Closed id period_id i (key ∷ keys) = search (
    reading.run.pure_lem,
    reading.run.bind_lem,
    reading.run.if_lem,
    ranked_or_zero-Closed,
    λ (n : ℕ). ranked_lines-Closed id period_id n keys,
  )

  pub handle_get_ranked_stats-Closed :
      (pkt : Packet)
      → U _ (parse_key_list env (params_map pkt.params) (codes "keys"))
      → U _ (handle_get_ranked_stats env pkt)
  unfolding handle_get_ranked_stats
  handle_get_ranked_stats-Closed pkt keys_read =
      search
        (
          world.run.pure_lem, world.run.bind_lem, world.run.if_lem, world.on_store_lem,
          world.current_lem, keys_read, ranked_lines-Closed,
        )
        depth 12

  stats_for_owners-Closed :
      (lookup : ℤ → ℤ) (keys : List Bytes) (period_id : ℤ) (i : ℕ) (owners : List OwnerRequest)
      → T _ (stats_for_owners env lookup keys period_id i owners)
  unfolding stats_for_owners
  stats_for_owners-Closed lookup keys period_id i [] = search (reading.run.pure_lem)
  stats_for_owners-Closed lookup keys period_id i (o ∷ os) =
      search
        (
          reading.run.pure_lem,
          reading.run.bind_lem,
          reading.run.if_lem,
          stats_of-Closed,
          stat_group_rank_value-Closed,
          λ (n : ℕ). stats_for_owners-Closed lookup keys period_id n os,
        )
        depth 10

  pub handle_get_stats_for_owners-Closed :
      (pkt : Packet)
      → U _ (parse_owner_list env (params_map pkt.params))
      → U _ (parse_key_list env (params_map pkt.params) (codes "keys"))
      → U _ (handle_get_stats_for_owners env pkt)
  unfolding handle_get_stats_for_owners
  handle_get_stats_for_owners-Closed pkt owners_read keys_read =
      search
        (
          world.run.pure_lem, world.run.bind_lem, world.run.if_lem, world.on_store_lem,
          world.current_lem, keys_read, owners_read, stats_for_owners-Closed,
        )
        depth 12

  owner_ranks-Closed :
      (prefix : Bytes) (id period_id : ℤ) (j : ℕ) (keys : List Bytes)
      → T _ (owner_ranks env prefix id period_id j keys)
  unfolding owner_ranks
  owner_ranks-Closed prefix id period_id j [] = search (reading.run.pure_lem)
  owner_ranks-Closed prefix id period_id j (key ∷ keys) = search (
    reading.run.pure_lem,
    reading.run.bind_lem,
    reading.run.if_lem,
    ranked_of-Closed,
    λ (n : ℕ). owner_ranks-Closed prefix id period_id n keys,
  )

  ranks_for_owners-Closed :
      (lookup : ℤ → ℤ) (keys : List Bytes) (period_id : ℤ) (i : ℕ) (owners : List OwnerRequest)
      → T _ (ranks_for_owners env lookup keys period_id i owners)
  unfolding ranks_for_owners
  ranks_for_owners-Closed lookup keys period_id i [] = search (reading.run.pure_lem)
  ranks_for_owners-Closed lookup keys period_id i (o ∷ os) = search (
    reading.run.pure_lem,
    reading.run.bind_lem,
    reading.run.if_lem,
    owner_ranks-Closed,
    λ (n : ℕ). ranks_for_owners-Closed lookup keys period_id n os,
  )

  pub handle_get_ranked_stats_for_owners-Closed :
      (pkt : Packet)
      → U _ (parse_owner_list env (params_map pkt.params))
      → U _ (parse_key_list env (params_map pkt.params) (codes "keys"))
      → U _ (handle_get_ranked_stats_for_owners env pkt)
  unfolding handle_get_ranked_stats_for_owners
  handle_get_ranked_stats_for_owners-Closed pkt owners_read keys_read =
      search
        (
          world.run.pure_lem, world.run.bind_lem, world.run.if_lem, world.on_store_lem,
          world.current_lem, keys_read, owners_read, ranks_for_owners-Closed,
        )
        depth 12

  pub handle_get_top_n_and_stats-Closed :
      (pkt : Packet)
      → U _ (parse_key_list env (params_map pkt.params) (codes "keys"))
      → U _ (handle_get_top_n_and_stats env pkt)
  unfolding handle_get_top_n_and_stats
  handle_get_top_n_and_stats-Closed pkt keys_read =
      search
        (
          world.run.pure_lem,
          world.run.bind_lem,
          world.run.if_lem,
          world.on_store_lem,
          world.current_lem,
          keys_read,
          StatsClosed.top_n-Closed env reading,
        )
        depth 12
