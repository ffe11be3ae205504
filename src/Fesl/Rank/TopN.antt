-- ===== src/Fesl/Rank/TopN.antt =====
-- server/fesl/rank.go: `GetTopNAndStats`.
pub mod Fits
use medge_net.Prelude.{
  ℕ, zero, suc, ◌+◌, ◌-◌, Bool, true, false, not, ◌&&◌, ◌||◌, List, [], ◌∷◌, ◌++◌, map, Option,
  none, some, Bytes, codes, length, take, ltb, leb, if◌then◌else◌,
}
use medge_net.Prelude.Int.{ℤ, pos, negsuc, ◌==ℤ◌}
use medge_net.Env.{Env}
use medge_net.Exec.{Run, pure, ◌>>=◌}
use medge_net.Float.{Float64, nought}
use medge_net.Packet.{Kv, Packet, params_map, encode}
use medge_net.Store.Rank.TopN.{TopEntry, top_n}
use medge_net.Store.Stats.{Values, set_value, value_of}
use medge_net.Fesl.Rank.Emit.{
  default_for_key, emit_stat_group_flat, emit_stat_group_flat_for_entry,
  emit_sparse_time_add_stats_for_entry,
}
use medge_net.Fesl.Rank.Requests.{parse_key_list, leaderboard_keys}
use medge_net.Fesl.Session.{World, on_store, kv, kvs, field, atoi, is_zero, indexed}
use medge_net.Text.{is_empty}
use medge_net.Text.Number.{format_int, format_nat}

abbrev pub max_rank_packet_bytes : ℕ
max_rank_packet_bytes = 60000

abbrev pub max_historical_top_rows : ℕ
max_historical_top_rows = 100

unfoldable pub has_historical_rows : List TopEntry → Bool
has_historical_rows [] = false
has_historical_rows (e ∷ es) = e.imported || has_historical_rows es

-- A missing key of a Go map reads as 0.
abbrev value_or_nought : Values → Bytes → Float64
value_or_nought values key = elim (value_of values key) [ none ↦ nought | some value ↦ value ]

module _ (env : Env) where
  -- The lines of one row.
  unfoldable pub entry_block : Bytes → TopEntry → List Bytes → Bytes → List Kv
  entry_block prefix entry all_keys sort_key =
      let sort_value = env.format_float (value_or_nought entry.values sort_key) in
      let owner_id = format_int entry.persona_id in
      let rank = format_nat entry.rank in
      if entry.imported
      then kv (prefix ++ codes ".owner") owner_id
        ∷ kv (prefix ++ codes ".name") entry.persona_name
        ∷ kv (prefix ++ codes ".rank") rank
        ∷ kv (prefix ++ codes ".value") sort_value
        ∷ emit_sparse_time_add_stats_for_entry env (prefix ++ codes ".addStats.") entry all_keys
            sort_key
      else kv (prefix ++ codes ".ownerId") owner_id
        ∷ kv (prefix ++ codes ".ownerType") (codes "1")
        ∷ kv (prefix ++ codes ".owner") owner_id
        ∷ kv (prefix ++ codes ".name") entry.persona_name
        ∷ kv (prefix ++ codes ".rank") rank
        ∷ kv (prefix ++ codes ".value") sort_value
        ∷ kv (prefix ++ codes ".text") sort_value
        ∷ (emit_stat_group_flat_for_entry env (prefix ++ codes ".stats.") entry all_keys rank
            ++ emit_stat_group_flat_for_entry env (prefix ++ codes ".addStats.") entry all_keys
                rank)

  unfoldable pub entry_blocks : ℕ → List TopEntry → List Bytes → Bytes → List Kv
  unfolding entry_block
  entry_blocks i [] all_keys sort_key = []
  entry_blocks i (e ∷ es) all_keys sort_key =
      entry_block (indexed (codes "stats.") i []) e all_keys sort_key
      ++ entry_blocks (i + 1) es all_keys sort_key

  unfoldable pub build_top_n_and_stats_response : List TopEntry → List Bytes → Bytes → List Kv
  unfolding entry_blocks
  build_top_n_and_stats_response entries all_keys sort_key =
      kvs (
        codes "TXN" ∷ codes "GetTopNAndStats" ∷ codes "stats.[]" ∷ format_nat (length entries) ∷ [])
      ++ entry_blocks 0 entries all_keys sort_key

  -- `dummy[key] = ...` for each key.
  unfoldable pub dummy_values : Bool → List Bytes → Values → Values
  dummy_values zero_time [] out = out
  dummy_values zero_time (key ∷ keys) out =
      dummy_values zero_time keys
        (set_value key (if zero_time then nought else default_for_key key) out)

  unfoldable pub build_dummy_top_n_and_stats_response :
      List Bytes → Bytes → ℤ → Bytes → Bool → List Kv
  unfolding dummy_values
  build_dummy_top_n_and_stats_response all_keys sort_key rank name zero_time =
      let value = env.format_float (if zero_time then nought else default_for_key sort_key) in
      let dummy = dummy_values zero_time all_keys [] in
      kvs (
        codes "TXN"
        ∷ codes "GetTopNAndStats"
        ∷ codes "stats.[]"
        ∷ codes "1"
        ∷ codes "stats.0.ownerId"
        ∷ codes "0"
        ∷ codes "stats.0.ownerType"
        ∷ codes "1"
        ∷ codes "stats.0.owner"
        ∷ codes "0"
        ∷ codes "stats.0.name"
        ∷ name
        ∷ codes "stats.0.rank"
        ∷ format_int rank
        ∷ codes "stats.0.value"
        ∷ value
        ∷ codes "stats.0.text"
        ∷ value
        ∷ [])
      ++ (emit_stat_group_flat env (codes "stats.0.stats.") dummy all_keys (format_int rank)
          ++ emit_stat_group_flat env (codes "stats.0.addStats.") dummy all_keys (format_int rank))

  -- The loop that drops rows off the end while the reply is too large, at most `fuel` of them.
  unfoldable pub fit : ℕ → (List TopEntry → Bytes) → List TopEntry → List TopEntry
  fit zero build entries = entries
  fit (suc fuel) build entries =
      let fewer = fit fuel build (take (length entries - 1) entries) in
      if ltb max_rank_packet_bytes (length (build entries)) && ltb 1 (length entries)
      then fewer
      else entries

  -- `entries[:maxHistoricalTopRows]`
  unfoldable pub cap_historical : List TopEntry → List TopEntry
  cap_historical entries =
      if has_historical_rows entries && ltb max_historical_top_rows (length entries)
      then take max_historical_top_rows entries
      else entries

  abbrev or_one : ℤ → ℤ
  or_one n = if is_zero n then pos 1 else n

  abbrev is_cutoff : ℤ → Bool
  is_cutoff (pos n) = leb 500 n
  is_cutoff (negsuc n) = false

  -- `Encode("rank", pkt.ID, buildTopNAndStatsResponse(...))`
  abbrev pub encoded : Packet → List Bytes → Bytes → List TopEntry → Bytes
  encoded pkt all_keys key entries =
      encode (codes "rank") pkt.id (build_top_n_and_stats_response entries all_keys key)

  -- As many rows as fit.
  unfoldable pub fitted : Packet → List Bytes → Bytes → List TopEntry → Bytes
  unfolding cap_historical fit
  fitted pkt all_keys key entries =
      let capped = cap_historical entries in
      encoded pkt all_keys key (fit (length capped) (encoded pkt all_keys key) capped)

  unfoldable pub handle_get_top_n_and_stats : Packet → Run World Bytes
  unfolding fitted
  handle_get_top_n_and_stats pkt = do
    let key = field pkt "key"
    let min_rank = or_one (atoi (field pkt "minRank"))
    let max_rank = or_one (atoi (field pkt "maxRank"))
    let period_id = atoi (field pkt "periodId")
    extra_keys ← parse_key_list env (params_map pkt.params) (codes "keys")
    entries ← on_store (top_n env key extra_keys period_id min_rank max_rank)
    let all_keys = leaderboard_keys key extra_keys
    let dummy = λ (name : Bytes) (zero_time : Bool).
        encode (codes "rank") pkt.id
          (build_dummy_top_n_and_stats_response all_keys key min_rank name zero_time)
    if is_empty entries && is_cutoff min_rank
        then pure (dummy [] true)
        else if is_empty entries && min_rank ==ℤ pos 1 && max_rank ==ℤ pos 1
        then pure (dummy (codes "No Name") false)
        else pure (fitted pkt all_keys key entries)
