-- ===== src/Store/Stats/Stretches.antt =====
-- `GhostTagToStretches`: which stretches a ghost's tag stands for.
use medge_net.Prelude.{
  Bool, false, not, ◌&&◌, List, [], ◌∷◌, ◌++◌, Bytes, codes, equal, if◌then◌else◌,
}
use medge_net.Prelude.Int.{ℤ, pos, negsuc, ◌==ℤ◌}
use medge_net.Env.{Env}
use medge_net.Exec.{Run, gets}
use medge_net.Store.{StatRow, Store, stmt}
use medge_net.Text.{split}
use medge_net.Text.Number.{parse_int}

-- `map[int][]int`
abbrev pub Tags : Type 0
Tags = List (ℤ × List ℤ)

-- `out[tag] = append(out[tag], id)`
unfoldable pub append_stretch : ℤ → ℤ → Tags → Tags
append_stretch tag id [] = (tag, id ∷ []) ∷ []
append_stretch tag id (t ∷ ts) =
    let rest = append_stretch tag id ts in
    if t.0 ==ℤ tag then (t.0, t.1 ++ id ∷ []) ∷ ts else t ∷ rest

abbrev is_positive : ℤ → Bool
is_positive (pos n) = not (pos n ==ℤ pos 0)
is_positive (negsuc n) = false

-- A key of three parts, `TD`, a number and `41`.
unfoldable pub stretch_row : Env → StatRow → List Bytes → Tags → Tags
unfolding append_stretch
stretch_row env r (a ∷ b ∷ c ∷ []) out =
    let (id, valid) = parse_int b in
    let tag = env.truncate r.value in
    if equal a (codes "TD") && equal c (codes "41") && valid && is_positive tag
    then append_stretch tag id out
    else out
stretch_row env r _ out = out

-- The pattern of the WHERE clause, `TD_%_41`, selects every key that the loop goes on to accept.
unfoldable pub stretch_rows : Env → List StatRow → Tags → Tags
unfolding stretch_row
stretch_rows env [] out = out
stretch_rows env (r ∷ rs) out = stretch_rows env rs (stretch_row env r (split b'_' r.key) out)

unfoldable pub ghost_tag_to_stretches : Env → Run Store Tags
unfolding stretch_rows
ghost_tag_to_stretches env = stmt env (gets (λ s. stretch_rows env s.stats []))
