-- ===== src/Tests/Stats.antt =====
-- Statistics, ranks and historical players.
use medge_net.Prelude.{
  ℕ, ◌+◌, ◌≡◌, ◌≤◌, ◌<◌, refl, false, [], ◌∷◌, List, none, some, Bytes, All, codes, equal, length,
  arith,
}
use medge_net.Prelude.Int.{ℤ, pos, ◌==ℤ◌}
use medge_net.Calendar.{period_cutoff, weekday, date_of}
use medge_net.Calendar.Periods.{period_cutoff_week, period_cutoff_month}
use medge_net.Exec.{ok, ◌>>◌}
use medge_net.Exec.Closed.{Answers}
use medge_net.Float.{Float64, is_nan, order, less}
use medge_net.Packet.{Packet, param, params_map}
use medge_net.Store.{StatRow, RunRow, Store, find, select}
use medge_net.Store.Historical.{
  add_historical_run, link_historical_account, unlink_historical_account,
}
use medge_net.Store.Historical.Names.{max_historical_name_len, sanitize_historical_name}
use medge_net.Store.Historical.Names.Shown.{IsShown, sanitize_historical_name-IsShown}
use medge_net.Store.Invariant.{IsValid}
use medge_net.Store.Invariant.Historical.{historical-IsValid}
use medge_net.Store.Rank.{rank_of, collect, best, add_best, is_before, live_time}
use medge_net.Store.Rank.Position.{HasOwners, rank_of_place}
use medge_net.Store.Rank.TopN.{
  Candidate, TopEntry, candidates, leaderboard, sort_by_value, insert_by_value,
}
use medge_net.Store.Rank.TopN.Sorted.{Sorted, value, candidate_owner, leaderboard-Sorted}
use medge_net.Store.Keys.{Distinct}
use medge_net.Store.Stats.{update_stats, get_stats, stored, best_persona_id_for_key}
use medge_net.Store.Stats.Namesake.{best_persona_id_for_key-own}
use medge_net.Store.Stats.Scope.{is_time_key, sql_at_most}
use medge_net.Store.Stats.Updated.{get_stats-update_stats}
use medge_net.Fesl.Rank.{handle_get_stats, handle_get_ranked_stats}
use medge_net.Fesl.Rank.Replies.{handle_get_stats-Answers}
use medge_net.Fesl.Rank.TopN.{handle_get_top_n_and_stats, fitted, encoded, cap_historical}
use medge_net.Fesl.Rank.TopN.Fits.{Longest, fitted-Longest}
use medge_net.Fesl.Rank.Update.{handle_update_stats}
use medge_net.Fesl.Rank.Update.Owner.{other_stats, handle_update_stats-others}
use medge_net.Fesl.Session.{kv, atoi}
use medge_net.Text.{Option_map, has_suffix}
use medge_net.Text.Number.{parse_int}
use medge_net.Tests.Samples.{calm_env, two_runners, faith_world}

-- A time of one second, and of two.
abbrev one_second : Float64
one_second = record { negative = false; magnitude = 0x3ff0000000000000 }

abbrev two_seconds : Float64
two_seconds = record { negative = false; magnitude = 0x4000000000000000 }

abbrev row_of : ℤ → Float64 → StatRow
row_of id v = record {
  persona_id = id;
  key = codes "a_20";
  value = v;
  period_id = pos 0;
  updated_at = [];
}

-- Kate is the faster one.
abbrev raced : Store
raced = record two_runners { stats = row_of (pos 1) two_seconds ∷ row_of (pos 2) one_second ∷ [] }

raced-HasOwners : HasOwners raced
unfolding find ◌==ℤ◌
raced-HasOwners = record { of_stats = (refl, (refl, tt)); of_links = tt }

abbrev kate_place : Candidate
kate_place = record {
  time = live_time (row_of (pos 2) one_second);
  name = codes "Kate";
  imported = false;
}

abbrev faith_place : Candidate
faith_place = record {
  time = live_time (row_of (pos 1) two_seconds);
  name = codes "Faith";
  imported = false;
}

rank_of_place_example :
    rank_of raced (codes "a_20") (pos 0) none (value faith_place)
    ≡ length (kate_place ∷ [])
      + 1
      + length (select (λ c. sql_at_most (value c) (value faith_place)) [])
unfolding leaderboard candidates sort_by_value insert_by_value best add_best collect select find
    is_before less is_nan order ◌==ℤ◌ codes equal Option_map
rank_of_place_example =
    rank_of_place raced (codes "a_20") (pos 0) none (kate_place ∷ []) faith_place [] raced-HasOwners
      refl

leaderboard-Sorted_example :
    Sorted (leaderboard raced (codes "a_20") (pos 0) none)
    × Distinct candidate_owner (leaderboard raced (codes "a_20") (pos 0) none)
leaderboard-Sorted_example = leaderboard-Sorted raced (codes "a_20") (pos 0) none

raced-IsValid : IsValid raced
unfolding codes
raced-IsValid = record {
  account_ids = (tt, tt);
  nuids = (tt, tt);
  persona_ids = ((ground arith, tt), (tt, tt));
  names = ((ground arith, tt), (tt, tt));
  hashes = (tt, tt);
  links = (tt, tt);
  tables = record {
    stat_keys = ((ground arith, tt), (tt, tt));
    player_ids = tt;
    source_keys = tt;
    run_keys = tt;
    linked_keys = tt;
  };
}

get_stats-update_stats_example :
    ((update_stats calm_env (pos 1) (record { key = codes "a"; value = one_second } ∷ []) (pos 0)
        >> get_stats calm_env (pos 1) (codes "a" ∷ []) (pos 0))
      raced).0
    ≡ ok (record { key = codes "a"; value = stored one_second } ∷ [])
unfolding is_nan is_time_key has_suffix codes equal period_cutoff ◌==ℤ◌
get_stats-update_stats_example =
    get_stats-update_stats calm_env (pos 1) (codes "a") one_second (pos 0) raced (λ t. refl)
      raced-IsValid refl refl (λ today. refl)

best_persona_id_for_key-own_example :
    (best_persona_id_for_key calm_env (pos 1) (codes "a_20") (pos 0) raced).0 ≡ ok (pos 1)
best_persona_id_for_key-own_example =
    best_persona_id_for_key-own calm_env (pos 1) (codes "a_20") (pos 0) raced (λ t. refl)
      raced-IsValid

-- The best run of a historical player.
abbrev imported_run : RunRow
imported_run = record {
  player_id = pos 0;
  stretch_id = pos 1;
  key = codes "a_20";
  value = one_second;
  period_id = pos 0;
  run_id = codes "run";
  weblink = [];
  updated_at = [];
}

historical-IsValid_example :
    IsValid (add_historical_run calm_env (codes "src:1") (codes "Celeste") imported_run raced).1
    × IsValid (link_historical_account calm_env (codes "src:1") (pos 1) raced).1
    × IsValid (unlink_historical_account calm_env (codes "src:1") raced).1
historical-IsValid_example =
    historical-IsValid calm_env (codes "src:1") (codes "Celeste") imported_run (pos 1) raced
      raced-IsValid

sanitize_historical_name-IsShown_example :
    (1 ≤ length (sanitize_historical_name (codes "a=b")))
    × (length (sanitize_historical_name (codes "a=b")) ≤ max_historical_name_len)
    × All IsShown (sanitize_historical_name (codes "a=b"))
sanitize_historical_name-IsShown_example = sanitize_historical_name-IsShown (codes "a=b")

-- A Wednesday.
period_cutoff_week_example :
    (start : ℕ) × (period_cutoff (pos 2) 19725 ≡ some start)
    × (weekday start ≡ 1)
    × (start ≤ 19725)
    × (19725 < start + 7)
period_cutoff_week_example = period_cutoff_week 19725 (omega arith)

period_cutoff_month_example :
    (start : ℕ) × (period_cutoff (pos 4) 19725 ≡ some start)
    × (date_of start ≡ record (date_of 19725) { day = 1 })
    × (start ≤ 19725)
period_cutoff_month_example = period_cutoff_month 19725

-- A request for one key.
abbrev ask_one : Packet
ask_one = record {
  typ = codes "rank";
  id = 7;
  params =
      kv (codes "TXN") (codes "GetStats")
      ∷ kv (codes "keys.[]") (codes "1")
      ∷ kv (codes "keys.0") (codes "a_20")
      ∷ kv (codes "owners.[]") (codes "1")
      ∷ kv (codes "owners.0.ownerId") (codes "2")
      ∷ [];
}

-- A request for a negative number of keys.
abbrev ask_negative : Packet
ask_negative = record {
  typ = codes "rank";
  id = 7;
  params = kv (codes "TXN") (codes "GetStats") ∷ kv (codes "keys.[]") (codes "-1") ∷ [];
}

handle_get_stats-Answers_example :
    Answers Bytes (handle_get_stats calm_env ask_one)
    × Answers Bytes (handle_get_ranked_stats calm_env ask_one)
    × Answers Bytes (handle_get_top_n_and_stats calm_env ask_one)
unfolding atoi param params_map parse_int codes equal
handle_get_stats-Answers_example = handle_get_stats-Answers calm_env ask_one (λ t. refl) refl

-- Two rows of a leaderboard.
abbrev best_entry : ℤ → ℕ → TopEntry
best_entry id rank = record {
  persona_id = id;
  persona_name = codes "Faith";
  rank = rank;
  values = record { key = codes "a_20"; value = one_second } ∷ [];
  imported = false;
  time_only = false;
}

abbrev two_entries : List TopEntry
two_entries = best_entry (pos 1) 1 ∷ best_entry (pos 2) 2 ∷ []

fitted-Longest_example :
    (out : List TopEntry) × (fitted calm_env ask_one (codes "a_20" ∷ []) (codes "a_20") two_entries
      ≡ encoded calm_env ask_one (codes "a_20" ∷ []) (codes "a_20") out)
    × Longest
        (encoded calm_env ask_one (codes "a_20" ∷ []) (codes "a_20"))
        (cap_historical calm_env two_entries)
        out
fitted-Longest_example =
    fitted-Longest calm_env ask_one (codes "a_20" ∷ []) (codes "a_20") two_entries

-- An update that names another owner.
abbrev update_one_value : Packet
update_one_value = record {
  typ = codes "rank";
  id = 8;
  params =
      kv (codes "TXN") (codes "UpdateStats")
      ∷ kv (codes "u.[]") (codes "1")
      ∷ kv (codes "u.0.o") (codes "2")
      ∷ kv (codes "u.0.s.[]") (codes "1")
      ∷ kv (codes "u.0.s.0.k") (codes "a_20")
      ∷ kv (codes "u.0.s.0.v") (codes "1.0")
      ∷ [];
}

handle_update_stats-others_example :
    ((handle_update_stats calm_env update_one_value faith_world).1.session ≡ faith_world.session)
    × (other_stats (pos 1) (handle_update_stats calm_env update_one_value faith_world).1.store.stats
        ≡ other_stats (pos 1) faith_world.store.stats)
handle_update_stats-others_example =
    handle_update_stats-others calm_env update_one_value faith_world
