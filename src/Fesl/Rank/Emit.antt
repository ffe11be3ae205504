-- ===== src/Fesl/Rank/Emit.antt =====
-- server/fesl/rank.go: the groups of lines in a reply.
use medge_net.Prelude.{
  ℕ, ◌+◌, Bool, true, false, not, ◌&&◌, ◌||◌, List, [], ◌∷◌, ◌++◌, none, some, Bytes, codes, length,
  equal, if◌then◌else◌,
}
use medge_net.Env.{Env}
use medge_net.Float.{Float64, nought, no_time}
use medge_net.Packet.{Kv}
use medge_net.Store.Rank.{RankedStat}
use medge_net.Store.Rank.TopN.{TopEntry}
use medge_net.Store.Stats.{Values, value_of}
use medge_net.Store.Stats.Scope.{is_time_key}
use medge_net.Fesl.Session.{kv, indexed}
use medge_net.Text.Number.{format_nat}

unfoldable pub default_for_key : Bytes → Float64
default_for_key key = if is_time_key key then no_time else nought

unfoldable pub value_or_default : Values → Bytes → Float64
unfolding default_for_key
value_or_default values key = elim (value_of values key) [
  | none ↦ default_for_key key
  | some value ↦ value
]

abbrev is_missing : Values → Bytes → Bool
is_missing values key = elim (value_of values key) [ none ↦ true | some _ ↦ false ]

module _ (env : Env) where
  unfoldable pub stat_line : Bytes → Bytes → Float64 → Bytes → Bytes → List Kv
  stat_line prefix key value text rank =
      kv (prefix ++ codes ".key") key
      ∷ kv (prefix ++ codes ".value") (env.format_float value)
      ∷ kv (prefix ++ codes ".text") text
      ∷ kv (prefix ++ codes ".rank") rank
      ∷ []

  -- The four lines of a ranked value.
  unfoldable pub ranked_line : Bytes → Bytes → RankedStat → List Kv
  unfolding stat_line
  ranked_line prefix key ranked =
      stat_line prefix key ranked.value (env.format_float ranked.value) (format_nat ranked.rank)

  -- The loop, from key `i` on.
  unfoldable pub stat_lines : Bytes → Values → ℕ → List Bytes → Bytes → List Kv
  unfolding stat_line value_or_default
  stat_lines prefix values i [] rank_value = []
  stat_lines prefix values i (key ∷ keys) rank_value =
      let value = value_or_default values key in
      stat_line (indexed prefix i []) key value (env.format_float value) rank_value
      ++ stat_lines prefix values (i + 1) keys rank_value

  unfoldable pub emit_stat_group_flat : Bytes → Values → List Bytes → Bytes → List Kv
  unfolding stat_lines
  emit_stat_group_flat prefix values keys rank_value =
      kv (prefix ++ codes "[]") (format_nat (length keys))
      ∷ stat_lines prefix values 0 keys rank_value

  abbrev entry_text : TopEntry → Bytes → Bytes
  entry_text entry key =
      if (entry.imported || entry.time_only) && is_missing entry.values key && not (is_time_key key)
      then []
      else env.format_float (value_or_default entry.values key)

  unfoldable pub entry_lines : Bytes → TopEntry → ℕ → List Bytes → Bytes → List Kv
  unfolding stat_line value_or_default
  entry_lines prefix entry i [] rank_value = []
  entry_lines prefix entry i (key ∷ keys) rank_value =
      stat_line (indexed prefix i []) key (value_or_default entry.values key) (entry_text entry key)
        rank_value
      ++ entry_lines prefix entry (i + 1) keys rank_value

  unfoldable pub emit_stat_group_flat_for_entry : Bytes → TopEntry → List Bytes → Bytes → List Kv
  unfolding entry_lines
  emit_stat_group_flat_for_entry prefix entry keys rank_value =
      kv (prefix ++ codes "[]") (format_nat (length keys))
      ∷ entry_lines prefix entry 0 keys rank_value

  -- Only the key that the list is sorted by has lines.
  unfoldable pub sparse_lines : Bytes → TopEntry → ℕ → List Bytes → Bytes → List Kv
  unfolding value_or_default
  sparse_lines prefix entry i [] sort_key = []
  sparse_lines prefix entry i (key ∷ keys) sort_key =
      let rest = sparse_lines prefix entry (i + 1) keys sort_key in
      if not (equal key sort_key)
      then rest
      else kv (indexed prefix i (codes ".key")) key
        ∷ kv (indexed prefix i (codes ".value"))
            (env.format_float (value_or_default entry.values key))
        ∷ rest

  unfoldable pub emit_sparse_time_add_stats_for_entry :
      Bytes → TopEntry → List Bytes → Bytes → List Kv
  unfolding sparse_lines
  emit_sparse_time_add_stats_for_entry prefix entry keys sort_key =
      kv (prefix ++ codes "[]") (format_nat (length keys))
      ∷ sparse_lines prefix entry 0 keys sort_key
