-- ===== src/Fesl/Rank/Keeps.antt =====
-- What the store's statements keep, the statistics handlers keep.
use medge_net.Prelude.{ℕ, zero, suc, List, [], ◌∷◌, Bytes}
use medge_net.Prelude.Int.{ℤ}
use medge_net.Env.{Env}
use medge_net.Exec.Closed.{Keeps-Closed}
use medge_net.Exec.Keeps.{Keeps, keeps_rules, Keeps-bind}
use medge_net.Float.{Float64}
use medge_net.Packet.{Packet, Params}
use medge_net.Store.{Store}
use medge_net.Store.Calls.{Kept}
use medge_net.Store.Stats.Keeps as StatsKeeps
use medge_net.Fesl.Rank.{
  handle_get_stats, handle_get_ranked_stats, handle_get_stats_for_owners,
  handle_get_ranked_stats_for_owners,
}
use medge_net.Fesl.Rank.Closed
use medge_net.Fesl.Rank.Closed.{OnWorld}
use medge_net.Store.Stats.Closed.{Reading}
use medge_net.Fesl.Rank.Requests.{parse_key_list, parse_owner_list}
use medge_net.Fesl.Rank.TopN.{handle_get_top_n_and_stats}
use medge_net.Fesl.Rank.Update.{
  update_periods, update_one, update_values, update_owners, handle_update_stats,
}
use medge_net.Fesl.Session.Keeps.{OfStore, store_rules, Keeps-on_store, Keeps-current}

module _ {κ} {P : Store → Type κ} (env : Env) (k : Kept env P) where
  parse_key_list-Keeps :
      (env : Env) (p : Params) (prefix : Bytes) → Keeps (OfStore P) (parse_key_list env p prefix)
  unfolding parse_key_list
  parse_key_list-Keeps env p prefix = search store_rules

  parse_owner_list-Keeps : (env : Env) (p : Params) → Keeps (OfStore P) (parse_owner_list env p)
  unfolding parse_owner_list
  parse_owner_list-Keeps env p = search store_rules

  reading : Reading env (λ A m. Keeps P m)
  reading = StatsKeeps.Keeps-Reading env k

  world : OnWorld (λ A m. Keeps P m) (λ A m. Keeps (OfStore P) m)
  world = record {
    run = Keeps-Closed (OfStore P);
    on_store_lem = Keeps-on_store;
    current_lem = Keeps-current P;
  }

  pub handle_get_stats-Keeps : (pkt : Packet) → Keeps (OfStore P) (handle_get_stats env pkt)
  handle_get_stats-Keeps pkt =
      Closed.handle_get_stats-Closed env reading world pkt (parse_key_list-Keeps _ _ _)

  pub handle_get_ranked_stats-Keeps :
      (pkt : Packet) → Keeps (OfStore P) (handle_get_ranked_stats env pkt)
  handle_get_ranked_stats-Keeps pkt =
      Closed.handle_get_ranked_stats-Closed env reading world pkt (parse_key_list-Keeps _ _ _)

  pub handle_get_stats_for_owners-Keeps :
      (pkt : Packet) → Keeps (OfStore P) (handle_get_stats_for_owners env pkt)
  handle_get_stats_for_owners-Keeps pkt =
      Closed.handle_get_stats_for_owners-Closed env reading world pkt (parse_owner_list-Keeps _ _)
        (parse_key_list-Keeps _ _ _)

  pub handle_get_ranked_stats_for_owners-Keeps :
      (pkt : Packet) → Keeps (OfStore P) (handle_get_ranked_stats_for_owners env pkt)
  handle_get_ranked_stats_for_owners-Keeps pkt =
      Closed.handle_get_ranked_stats_for_owners-Closed env reading world pkt
        (parse_owner_list-Keeps _ _) (parse_key_list-Keeps _ _ _)

  pub handle_get_top_n_and_stats-Keeps :
      (pkt : Packet) → Keeps (OfStore P) (handle_get_top_n_and_stats env pkt)
  handle_get_top_n_and_stats-Keeps pkt =
      Closed.handle_get_top_n_and_stats-Closed env reading world pkt (parse_key_list-Keeps _ _ _)

  update_periods-Keeps :
      (id : ℤ) (key : Bytes) (value : Float64) (periods : List ℤ)
      → Keeps P (update_periods env id key value periods)
  unfolding update_periods
  update_periods-Keeps id key value [] = search keeps_rules
  update_periods-Keeps id key value (p ∷ ps) =
      Keeps-bind _ _ (StatsKeeps.update_stats-Keeps env k id _ p)
        (λ _. update_periods-Keeps id key value ps)

  update_one-Keeps : (p : Params) (oi si : ℕ) → Keeps (OfStore P) (update_one env p oi si)
  unfolding update_one
  update_one-Keeps p oi si = search (store_rules, update_periods-Keeps)

  update_values-Keeps :
      (p : Params) (oi left si : ℕ) → Keeps (OfStore P) (update_values env p oi left si)
  unfolding update_values
  update_values-Keeps p oi zero si = search store_rules
  update_values-Keeps p oi (suc left) si =
      search (store_rules, update_one-Keeps, update_values-Keeps p oi left)

  update_owners-Keeps : (p : Params) (left oi : ℕ) → Keeps (OfStore P) (update_owners env p left oi)
  unfolding update_owners
  update_owners-Keeps p zero oi = search store_rules
  update_owners-Keeps p (suc left) oi =
      search (store_rules, update_values-Keeps, update_owners-Keeps p left)

  pub handle_update_stats-Keeps : (pkt : Packet) → Keeps (OfStore P) (handle_update_stats env pkt)
  unfolding handle_update_stats
  handle_update_stats-Keeps pkt = search (store_rules, update_owners-Keeps)
