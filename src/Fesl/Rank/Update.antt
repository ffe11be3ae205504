-- ===== src/Fesl/Rank/Update.antt =====
-- server/fesl/rank.go: `UpdateStats`.
pub mod Owner
use medge_net.Prelude.{
  ℕ, zero, suc, ◌+◌, Bool, ◌||◌, List, [], ◌∷◌, ◌++◌, Bytes, codes, if◌then◌else◌,
}
use medge_net.Prelude.Int.{ℤ, pos}
use medge_net.Env.{Env}
use medge_net.Exec.{Run, pure, ◌>>=◌, ◌>>◌}
use medge_net.Float.{Float64}
use medge_net.Packet.{Packet, Params, params_map, param, encode}
use medge_net.Store.{Store}
use medge_net.Store.Stats.{update_stats}
use medge_net.Fesl.Session.{
  World, current, on_store, kvs, field, atoi, times, is_zero, indexed, with_default,
}
use medge_net.Text.{split, trim_left, trim_right, is_empty}
use medge_net.Text.Number.{parse_int}
use medge_net.Text.Runes.{trim_space}

-- The parts of a list of periods that are numbers.
unfoldable pub periods_of : List Bytes → List ℤ
periods_of [] = []
periods_of (part ∷ parts) =
    let trimmed = trim_space part in
    let (period, valid) = parse_int trimmed in
    let rest = periods_of parts in
    if is_empty trimmed then rest else if valid then period ∷ rest else rest

unfoldable pub parse_periods : Bytes → List ℤ
unfolding periods_of
parse_periods value =
    let trimmed = trim_right b'"' (trim_left b'"' value) in
    if is_empty trimmed then [] else periods_of (split b',' trimmed)

-- The periods of one value, and 0 where there are none.
abbrev pub or_all_time : List ℤ → List ℤ
or_all_time [] = pos 0 ∷ []
or_all_time (p ∷ ps) = p ∷ ps

module _ (env : Env) where
  unfoldable pub update_periods : ℤ → Bytes → Float64 → List ℤ → Run Store (Unit {0})
  update_periods persona_id key value [] = pure tt
  update_periods persona_id key value (period_id ∷ rest) = do
    update_stats env persona_id (record { key = key; value = value } ∷ []) period_id
    update_periods persona_id key value rest

  abbrev stat_field : Params → ℕ → ℕ → Bytes → Bytes
  stat_field p oi si name = param p (indexed (indexed (codes "u.") oi (codes ".s.")) si name)

  -- One value of the request. The periods are stored where a persona is logged in.
  unfoldable pub update_one : Params → ℕ → ℕ → Run World (Unit {0})
  unfolding update_periods parse_periods
  update_one p oi si = do
    session ← current
    let key = stat_field p oi si (codes ".k")
    let value = env.parse_float (stat_field p oi si (codes ".v"))
    let periods = or_all_time (parse_periods (stat_field p oi si (codes ".pt")))
    if is_empty key || is_zero session.persona_id
        then pure tt
        else on_store (update_periods session.persona_id key value periods)

  -- The inner loop: `left` values from index `si` on.
  unfoldable pub update_values : Params → ℕ → ℕ → ℕ → Run World (Unit {0})
  unfolding update_one
  update_values p oi zero si = pure tt
  update_values p oi (suc left) si = do update_one p oi si; update_values p oi left (si + 1)

  -- The outer loop: `left` owners from index `oi` on.
  unfoldable pub update_owners : Params → ℕ → ℕ → Run World (Unit {0})
  unfolding update_values
  update_owners p zero oi = pure tt
  update_owners p (suc left) oi = do
    update_values p oi (times (atoi (param p (indexed (codes "u.") oi (codes ".s.[]"))))) 0
    update_owners p left (oi + 1)

  unfoldable pub handle_update_stats : Packet → Run World Bytes
  unfolding update_owners
  handle_update_stats pkt = do
    let p = params_map pkt.params
    update_owners p (times (atoi (param p (codes "u.[]")))) 0
    let txn = with_default (field pkt "TXN") (codes "UpdateStats")
    pure (encode (codes "rank") pkt.id (kvs (codes "TXN" ∷ txn ∷ [])))
