-- ===== src/Locker/Entries/Aliases.antt =====
-- server/locker/server.go: what aliases do to a list of files.
use medge_net.Prelude.{
  ℕ, ◌≤◌, ◌≡◌, refl, ltb, ◌≢◌, false, List, [], ◌∷◌, ◌++◌, Option, none, some, Bytes, All, leb,
  equal_iff, length, length-take, arith, inl, inr, Bool-cases,
}
use medge_net.Prelude.Int.{ℤ}
use medge_net.Exec.{ok, ◌>>=◌}
use medge_net.Locker.Files.{Locker}
use medge_net.Locker.Xml.{Entry}
use medge_net.Store.Stats.Stretches.{Tags}
use medge_net.Locker.Entries.{
  locker_list_max_entries, cap_locker_list, find_entry_by_name, has_entry, ghost_tag, alias_name,
  add_aliases, aliases_of, alias_loop, with_stretch_aliases,
}
use medge_net.Store.Keys.{Distinct, Distinct-snoc}

abbrev pub Unique : List Entry → Type 0
Unique = Distinct (λ (e : Entry). e.name)

has_entry-eq-false :
    (name : Bytes) (es : List Entry)
    → has_entry name es ≡ false
    → All (λ (e : Entry). e.name ≢ name) es
unfolding has_entry
has_entry-eq-false name [] h = tt
has_entry-eq-false name (e ∷ es) h =
    ground (arith, equal_iff e.name name, has_entry-eq-false name es)

add_aliases-Unique :
    (entry : Entry) (ids : List ℤ) (out : List Entry)
    → Unique out
    → Unique (add_aliases entry ids out)
unfolding add_aliases
add_aliases-Unique entry [] out h = h
add_aliases-Unique entry (id ∷ ids) out h = elim (Bool-cases (has_entry (alias_name id) out)) [
  | inl e ↦ rw e (add_aliases-Unique entry ids out h)
  | inr e ↦ rw e (
      add_aliases-Unique entry ids _
        (Distinct-snoc (λ (x : Entry). x.name) out _ h (has_entry-eq-false _ out e)))
]

aliases_of-Unique :
    (tags : Tags) (entry : Entry) (tag : Option Bytes) (out : List Entry)
    → Unique out
    → Unique (aliases_of tags entry tag out)
unfolding aliases_of
aliases_of-Unique tags entry none out h = h
aliases_of-Unique tags entry (some tag) out h = add_aliases-Unique entry _ out h

alias_loop-Unique :
    (tags : Tags) (es out : List Entry) → Unique out → Unique (alias_loop tags es out)
unfolding alias_loop
alias_loop-Unique tags [] out h = h
alias_loop-Unique tags (e ∷ es) out h =
    alias_loop-Unique tags es _ (aliases_of-Unique tags e (ghost_tag e.name) out h)

-- Where no two entries of a list have one name, they have none with the aliases either, whatever
-- tags the store has.
pub with_stretch_aliases-Unique :
    (tags : Tags) (entries : List Entry)
    → Unique entries
    → Unique (with_stretch_aliases tags entries)
unfolding with_stretch_aliases
with_stretch_aliases-Unique [] entries h = h
with_stretch_aliases-Unique (t ∷ tags) entries h = alias_loop-Unique (t ∷ tags) entries entries h

-- What is found stays found in a longer list.
find_entry_by_name-append :
    (es fs : List Entry) (name : Bytes) (e : Entry)
    → find_entry_by_name es name ≡ some e
    → find_entry_by_name (es ++ fs) name ≡ some e
unfolding find_entry_by_name
find_entry_by_name-append [] fs name e h = ground arith
find_entry_by_name-append (x ∷ es) fs name e h =
    ground (arith, find_entry_by_name-append es fs name e)

not_short : (n : ℕ) → leb n 150 ≡ false → ltb n 150 ≡ false
not_short n h = ground arith

-- The slice is taken within the list, so it never panics.
pub cap_locker_list_lem :
    (es : List Entry) (w : Locker)
    → (listed : List Entry) × (cap_locker_list es w ≡ (ok listed, w))
      × (length listed ≤ locker_list_max_entries)
unfolding cap_locker_list ◌>>=◌
cap_locker_list_lem es w = elim (Bool-cases (leb (length es) locker_list_max_entries)) [
  | inl e ↦ rw e (es, refl, ground arith)
  | inr e ↦ rw (e, not_short (length es) e) (_, refl, rw length-take (omega arith))
]

module _ (name : Bytes) (e : Entry) where
  add_aliases_found :
      (entry : Entry) (ids : List ℤ) (out : List Entry)
      → find_entry_by_name out name ≡ some e
      → find_entry_by_name (add_aliases entry ids out) name ≡ some e
  unfolding add_aliases
  add_aliases_found entry [] out h = h
  add_aliases_found entry (id ∷ ids) out h = elim (Bool-cases (has_entry (alias_name id) out)) [
    | inl e' ↦ rw e' (add_aliases_found entry ids out h)
    | inr e' ↦ rw e' (add_aliases_found entry ids _ (find_entry_by_name-append out _ name e h))
  ]

  aliases_of_found :
      (tags : Tags) (entry : Entry) (tag : Option Bytes) (out : List Entry)
      → find_entry_by_name out name ≡ some e
      → find_entry_by_name (aliases_of tags entry tag out) name ≡ some e
  unfolding aliases_of
  aliases_of_found tags entry none out h = h
  aliases_of_found tags entry (some tag) out h = add_aliases_found entry _ out h

  alias_loop_found :
      (tags : Tags) (es out : List Entry)
      → find_entry_by_name out name ≡ some e
      → find_entry_by_name (alias_loop tags es out) name ≡ some e
  unfolding alias_loop
  alias_loop_found tags [] out h = h
  alias_loop_found tags (x ∷ es) out h =
      alias_loop_found tags es _ (aliases_of_found tags x (ghost_tag x.name) out h)

-- Aliases hide no file: a name that was found is found with the same entry.
pub with_stretch_aliases_found :
    (tags : Tags) (entries : List Entry) (name : Bytes) (e : Entry)
    → find_entry_by_name entries name ≡ some e
    → find_entry_by_name (with_stretch_aliases tags entries) name ≡ some e
unfolding with_stretch_aliases
with_stretch_aliases_found [] entries name e h = h
with_stretch_aliases_found (t ∷ tags) entries name e h =
    alias_loop_found name e (t ∷ tags) entries entries h
