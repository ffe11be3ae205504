-- ===== src/Locker/Entries.antt =====
-- server/locker/server.go: the lists of files that the locker answers with.
pub mod Aliases
use medge_net.Prelude.{
  ℕ, Bool, true, false, ◌&&◌, ◌||◌, not, ltb, List, [], ◌∷◌, ◌++◌, Option, none, some, Bytes, codes,
  leb, ◌==◌, equal, length, take, drop, if◌then◌else◌,
}
use medge_net.Prelude.Int.{ℤ, ◌==ℤ◌}
use medge_net.Exec.{Run, pure, crash}
use medge_net.Locker.Files.{Locker}
use medge_net.Locker.Xml.{Entry}
use medge_net.Store.Stats.Stretches.{Tags}
use medge_net.Text.{has_prefix, is_empty}
use medge_net.Text.Number.{parse_int, format_int, is_digit}

abbrev pub locker_list_max_entries : ℕ
locker_list_max_entries = 150

unfoldable pub find_entry_by_name : List Entry → Bytes → Option Entry
find_entry_by_name [] name = none
find_entry_by_name (e ∷ es) name = if equal e.name name then some e else find_entry_by_name es name

-- `entries[:high]`, taken to panic for every bound past the end; Go allows one within the capacity.
unfoldable pub slice_to : ℕ → List Entry → Run Locker (List Entry)
slice_to high entries = if ltb (length entries) high then crash else pure (take high entries)

unfoldable pub cap_locker_list : List Entry → Run Locker (List Entry)
unfolding slice_to
cap_locker_list entries =
    if leb (length entries) locker_list_max_entries
    then pure entries
    else slice_to locker_list_max_entries entries

-- The filter of `nfo` by name.
unfoldable pub named : Bytes → List Entry → List Entry
named name [] = []
named name (e ∷ es) = let rest = named name es in if equal e.name name then e ∷ rest else rest

all_digits : Bytes → Bool
all_digits [] = true
all_digits (c ∷ s) = is_digit c && all_digits s

abbrev pub ghost_prefix : Bytes
ghost_prefix = codes "tdttghost_"

-- `ghostNamePattern`: the digits after the prefix, at least one.
unfoldable pub ghost_tag : Bytes → Option Bytes
unfolding all_digits
ghost_tag name =
    let tag = drop 10 name in
    if has_prefix name ghost_prefix && not (is_empty tag) && all_digits tag then some tag else none

unfoldable pub stretches : Tags → ℤ → List ℤ
stretches [] tag = []
stretches (t ∷ ts) tag = if t.0 ==ℤ tag then t.1 else stretches ts tag

unfoldable pub has_entry : Bytes → List Entry → Bool
has_entry name [] = false
has_entry name (e ∷ es) = equal e.name name || has_entry name es

abbrev pub alias_name : ℤ → Bytes
alias_name stretch_id = ghost_prefix ++ format_int stretch_id

-- The inner loop. The set of names is that of the names in `out`.
unfoldable pub add_aliases : Entry → List ℤ → List Entry → List Entry
unfolding has_entry
add_aliases entry [] out = out
add_aliases entry (id ∷ ids) out =
    if has_entry (alias_name id) out
    then add_aliases entry ids out
    else add_aliases entry ids (out ++ (record entry { name = alias_name id }) ∷ [])

unfoldable pub aliases_of : Tags → Entry → Option Bytes → List Entry → List Entry
aliases_of tags entry none out = out
aliases_of tags entry (some tag) out = add_aliases entry (stretches tags (parse_int tag).0) out

unfoldable pub alias_loop : Tags → List Entry → List Entry → List Entry
unfolding aliases_of ghost_tag
alias_loop tags [] out = out
alias_loop tags (e ∷ es) out = alias_loop tags es (aliases_of tags e (ghost_tag e.name) out)

-- `withStretchAliases`, once the store has given the tags.
unfoldable pub with_stretch_aliases : Tags → List Entry → List Entry
unfolding alias_loop
with_stretch_aliases tags entries =
    if is_empty tags then entries else alias_loop tags entries entries
