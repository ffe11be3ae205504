-- ===== src/Fesl/Rank/Requests.antt =====
-- server/fesl/rank.go and server.go: what the statistics handlers read from a request.
use medge_net.Prelude.{
  ℕ, zero, suc, ◌+◌, ◌*◌, ◌^◌, Bool, true, not, ◌&&◌, ◌||◌, List, [], ◌∷◌, ◌++◌, Option, none, some,
  Bytes, codes, ltb, if◌then◌else◌,
}
use medge_net.Prelude.Int.{ℤ, pos, negsuc, ◌==ℤ◌}
use medge_net.Env.{Env}
use medge_net.Exec.{Run, pure, crash}
use medge_net.Packet.{Params, param}
use medge_net.Store.{find}
use medge_net.Store.Stats.Scope.{is_time_key, mem}
use medge_net.Fesl.Session.{Session, World, atoi, times, is_zero, indexed, with_default}
use medge_net.Text.{is_empty}

-- Whether `make([]T, 0, count)` ends the process, for elements of `size` bytes: it panics for a
-- negative capacity and for one beyond the 2^48 bytes that Go addresses, and it is a fatal error where
-- the runtime does not find the bytes.
abbrev pub cannot_make : Env → ℕ → ℤ → Bool
cannot_make env size (pos n) = ltb (2 ^ 48) (n * size) || not (env.allocates (n * size))
cannot_make env size (negsuc n) = true

-- `left` keys from index `i` on.
unfoldable pub keys_from : Params → Bytes → ℕ → ℕ → List Bytes
keys_from p prefix zero i = []
keys_from p prefix (suc left) i =
    let key = param p (indexed (prefix ++ codes ".") i []) in
    let rest = keys_from p prefix left (i + 1) in if is_empty key then rest else key ∷ rest

unfoldable pub parse_key_list : Env → Params → Bytes → Run World (List Bytes)
unfolding keys_from
parse_key_list env p prefix =
    let count = atoi (param p (prefix ++ codes ".[]")) in
    if cannot_make env 16 count then crash else pure (keys_from p prefix (times count) 0)

-- An element of `parseOwnerList`.
pub record OwnerRequest : Type 0 where
  pub id : ℤ
  pub typ : Bytes

unfoldable pub owners_from : Params → ℕ → ℕ → List OwnerRequest
owners_from p zero i = []
owners_from p (suc left) i =
    let id = atoi (param p (indexed (codes "owners.") i (codes ".ownerId"))) in
    let typ =
      with_default (param p (indexed (codes "owners.") i (codes ".ownerType"))) (codes "1") in
    let rest = owners_from p left (i + 1) in
    if is_zero id then rest else record { id = id; typ = typ } ∷ rest

unfoldable pub parse_owner_list : Env → Params → Run World (List OwnerRequest)
unfolding owners_from
parse_owner_list env p =
    let count = atoi (param p (codes "owners.[]")) in
    if cannot_make env 24 count then crash else pure (owners_from p (times count) 0)

unfoldable pub rank_lookup_persona_id : Session → ℤ → ℤ
rank_lookup_persona_id s owner_id =
    if is_zero owner_id
    then s.persona_id
    else if not (is_zero s.persona_id) && not (is_zero s.account_id) && owner_id ==ℤ s.account_id
    then s.persona_id
    else owner_id

abbrev key_or_empty : Option Bytes → Bytes
key_or_empty none = []
key_or_empty (some key) = key

unfoldable pub primary_time_key : List Bytes → Bytes
primary_time_key keys = key_or_empty (find is_time_key keys)

abbrev nonempty_keys : List Bytes → List Bytes
nonempty_keys [] = []
nonempty_keys (key ∷ keys) = if is_empty key then nonempty_keys keys else key ∷ nonempty_keys keys

unfoldable pub leaderboard_keys : Bytes → List Bytes → List Bytes
unfolding mem
leaderboard_keys sort_key requested =
    let keys = nonempty_keys requested in
    if not (is_empty sort_key) && not (mem sort_key keys) then sort_key ∷ keys else keys
