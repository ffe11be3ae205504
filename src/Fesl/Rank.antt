-- ===== src/Fesl/Rank.antt =====
-- server/fesl/rank.go: the statistics handlers, apart from `UpdateStats` and `GetTopNAndStats` below.
pub mod Keeps
pub mod Closed
pub mod Requests
pub mod Replies
pub mod Emit
pub mod Update
pub mod TopN
use medge_net.Prelude.{
  ℕ, zero, suc, ◌+◌, Bool, true, false, not, ◌&&◌, ◌||◌, String, List, [], ◌∷◌, ◌++◌, Option, none,
  some, Bytes, codes, length, if◌then◌else◌,
}
use medge_net.Prelude.Int.{ℤ, pos, ◌==ℤ◌}
use medge_net.Env.{Env}
use medge_net.Exec.{Run, pure, ◌>>=◌}
use medge_net.Float.{is_nought}
use medge_net.Packet.{Kv, Packet, Params, params_map, param, encode}
use medge_net.Store.{Store}
use medge_net.Store.Historical.{is_historical_owner, historical_stats}
use medge_net.Store.Rank.{RankedStat, ranked_stats, historical_ranked_stats}
use medge_net.Store.Stats.{Values, get_stats}
use medge_net.Fesl.Rank.Emit.{default_for_key, emit_stat_group_flat, ranked_line}
use medge_net.Fesl.Rank.Requests.{
  OwnerRequest, parse_key_list, parse_owner_list, rank_lookup_persona_id, primary_time_key,
}
use medge_net.Fesl.Session.{
  World, current, on_store, kv, kvs, field, atoi, is_zero, indexed, with_default,
}
use medge_net.Text.{is_empty}
use medge_net.Text.Number.{format_int, format_nat}

abbrev pub zero_ranked : Bytes → RankedStat
zero_ranked key = record { rank = 0; value = default_for_key key }

module _ (env : Env) where
  -- The choice between the two sources of statistics that every handler makes.
  unfoldable pub stats_of : ℤ → List Bytes → ℤ → Run Store Values
  stats_of id keys period_id =
      if is_historical_owner id
      then historical_stats env id keys period_id
      else get_stats env id keys period_id

  unfoldable pub ranked_of : ℤ → Bytes → ℤ → Run Store RankedStat
  ranked_of id key period_id =
      if is_historical_owner id
      then historical_ranked_stats env id key period_id
      else ranked_stats env id key period_id

  abbrev rank_text : RankedStat → Bytes
  rank_text r = if is_nought r.value then codes "0" else format_nat r.rank

  unfoldable pub stat_group_rank_value : ℤ → List Bytes → ℤ → Run Store Bytes
  unfolding ranked_of
  stat_group_rank_value owner_id keys period_id =
      let key = primary_time_key keys in
      if is_zero owner_id || is_empty key
      then pure (codes "0")
      else do ranked ← ranked_of owner_id key period_id; pure (rank_text ranked)

  abbrev owner_lines : String → ℤ → Bytes → ℕ → String → List Kv
  owner_lines txn id typ count lists = kvs (
      codes "TXN"
      ∷ codes txn
      ∷ codes "ownerId"
      ∷ format_int id
      ∷ codes "ownerType"
      ∷ typ
      ∷ codes "owner"
      ∷ format_int id
      ∷ codes lists
      ∷ format_nat count
      ∷ [])

  unfoldable pub handle_get_stats : Packet → Run World Bytes
  unfolding stats_of stat_group_rank_value
  handle_get_stats pkt = do
    session ← current
    let owner = atoi (field pkt "owner")
    let period_id = atoi (field pkt "periodId")
    keys ← parse_key_list env (params_map pkt.params) (codes "keys")
    let persona_id = rank_lookup_persona_id session owner
    let response_owner_id = if is_zero owner then persona_id else owner
    stats ← if is_zero persona_id then pure [] else on_store (stats_of persona_id keys period_id)
    rank_value ← on_store (stat_group_rank_value persona_id keys period_id)
    pure (
        encode (codes "rank") pkt.id (
          owner_lines "GetStats" response_owner_id
            (with_default (field pkt "ownerType") (codes "1")) (length keys) "stats.[]"
          ++ emit_stat_group_flat env (codes "stats.") stats keys rank_value))

  -- `ranked`, or the default where the store has nothing.
  abbrev or_zero : Bytes → RankedStat → RankedStat
  or_zero key got = if is_nought got.value then zero_ranked key else got

  unfoldable pub ranked_or_zero : ℤ → Bytes → ℤ → Run Store RankedStat
  unfolding ranked_of
  ranked_or_zero persona_id key period_id =
      if is_zero persona_id
      then pure (zero_ranked key)
      else do got ← ranked_of persona_id key period_id; pure (or_zero key got)

  -- The loop of `handleGetRankedStats`, from key `i` on.
  unfoldable pub ranked_lines : ℤ → ℤ → ℕ → List Bytes → Run Store (List Kv)
  unfolding ranked_or_zero
  ranked_lines persona_id period_id i [] = pure []
  ranked_lines persona_id period_id i (key ∷ keys) = do
    ranked ← ranked_or_zero persona_id key period_id
    rest ← ranked_lines persona_id period_id (i + 1) keys
    pure (
        ranked_line env (indexed (codes "rankedStats.") i []) key ranked
        ++ (ranked_line env (indexed (codes "stats.") i []) key ranked ++ rest))

  unfoldable pub handle_get_ranked_stats : Packet → Run World Bytes
  unfolding ranked_lines
  handle_get_ranked_stats pkt = do
    session ← current
    let owner = atoi (field pkt "owner")
    let period_id = atoi (field pkt "periodId")
    keys ← parse_key_list env (params_map pkt.params) (codes "keys")
    let persona_id = rank_lookup_persona_id session owner
    let response_owner_id = if is_zero owner then persona_id else owner
    lines ← on_store (ranked_lines persona_id period_id 0 keys)
    pure (
        encode (codes "rank") pkt.id (
          owner_lines "GetRankedStats" response_owner_id
            (with_default (field pkt "ownerType") (codes "1")) (length keys) "rankedStats.[]"
          ++ (kv (codes "stats.[]") (format_nat (length keys)) ∷ lines)))

  -- The loop of `handleGetStatsForOwners`, from owner `i` on.
  unfoldable pub stats_for_owners :
      (ℤ → ℤ) → List Bytes → ℤ → ℕ → List OwnerRequest → Run Store (List Kv)
  unfolding stats_of stat_group_rank_value
  stats_for_owners lookup keys period_id i [] = pure []
  stats_for_owners lookup keys period_id i (o ∷ os) = do
    let id = lookup o.id
    stats ← stats_of id keys period_id
    rank_value ← stat_group_rank_value id keys period_id
    rest ← stats_for_owners lookup keys period_id (i + 1) os
    let prefix = indexed (codes "stats.") i []
    pure (
        (kv (prefix ++ codes ".ownerId") (format_int o.id)
          ∷ kv (prefix ++ codes ".ownerType") o.typ
          ∷ kv (prefix ++ codes ".owner") (format_int o.id)
          ∷ kv (prefix ++ codes ".rank") rank_value
          ∷ emit_stat_group_flat env (prefix ++ codes ".stats.") stats keys rank_value)
        ++ rest)

  unfoldable pub handle_get_stats_for_owners : Packet → Run World Bytes
  unfolding stats_for_owners
  handle_get_stats_for_owners pkt = do
    session ← current
    let p = params_map pkt.params
    let period_id = atoi (field pkt "periodId")
    owners ← parse_owner_list env p
    keys ← parse_key_list env p (codes "keys")
    lines ← on_store (stats_for_owners (rank_lookup_persona_id session) keys period_id 0 owners)
    pure (
        encode (codes "rank") pkt.id (
          kvs (
            codes "TXN"
            ∷ codes "GetStatsForOwners"
            ∷ codes "stats.[]"
            ∷ format_nat (length owners)
            ∷ [])
          ++ lines))

  -- The inner loop of `handleGetRankedStatsForOwners`, from key `j` on.
  unfoldable pub owner_ranks : Bytes → ℤ → ℤ → ℕ → List Bytes → Run Store (List Kv)
  unfolding ranked_of
  owner_ranks prefix id period_id j [] = pure []
  owner_ranks prefix id period_id j (key ∷ keys) = do
    got ← ranked_of id key period_id
    rest ← owner_ranks prefix id period_id (j + 1) keys
    pure (
        ranked_line env (indexed (prefix ++ codes ".rankedStats.") j []) key (or_zero key got)
        ++ rest)

  unfoldable pub ranks_for_owners :
      (ℤ → ℤ) → List Bytes → ℤ → ℕ → List OwnerRequest → Run Store (List Kv)
  unfolding owner_ranks
  ranks_for_owners lookup keys period_id i [] = pure []
  ranks_for_owners lookup keys period_id i (o ∷ os) = do
    let prefix = indexed (codes "rankedStats.") i []
    ranks ← owner_ranks prefix (lookup o.id) period_id 0 keys
    rest ← ranks_for_owners lookup keys period_id (i + 1) os
    pure (
        (kv (prefix ++ codes ".ownerId") (format_int o.id)
          ∷ kv (prefix ++ codes ".ownerType") o.typ
          ∷ kv (prefix ++ codes ".owner") (format_int o.id)
          ∷ kv (prefix ++ codes ".rankedStats.[]") (format_nat (length keys))
          ∷ ranks)
        ++ rest)

  unfoldable pub handle_get_ranked_stats_for_owners : Packet → Run World Bytes
  unfolding ranks_for_owners
  handle_get_ranked_stats_for_owners pkt = do
    session ← current
    let p = params_map pkt.params
    let period_id = atoi (field pkt "periodId")
    owners ← parse_owner_list env p
    keys ← parse_key_list env p (codes "keys")
    lines ← on_store (ranks_for_owners (rank_lookup_persona_id session) keys period_id 0 owners)
    pure (
        encode (codes "rank") pkt.id (
          kvs (
            codes "TXN"
            ∷ codes "GetRankedStatsForOwners"
            ∷ codes "rankedStats.[]"
            ∷ format_nat (length owners)
            ∷ [])
          ++ lines))
