-- ===== src/Locker/Requests/Answers/Listings.antt =====
-- server/locker/server.go: what the calls that look for ghosts return.
use medge_net.Prelude.{
  ◌≡◌, ◌≤◌, inl, inr, refl, arith, false, not, List, [], ◌∷◌, ◌++◌, Option, none, some, Bytes, All,
  All-append, length, codes, equal, Bool-cases,
}
use medge_net.Prelude.Int.{ℤ}
use medge_net.Exec.Ends.{Ends-gets}
use medge_net.Exec.Returns.{
  outcome_lem, Fine, Returns, Replies, Returns-pure, Replies-pure, Replies-Returns, Returns-bind,
  Replies-catch,
}
use medge_net.Locker.Entries.{
  locker_list_max_entries, find_entry_by_name, cap_locker_list, has_entry, alias_name, add_aliases,
  aliases_of, alias_loop, ghost_tag, with_stretch_aliases,
}
use medge_net.Locker.Entries.Aliases.{cap_locker_list_lem}
use medge_net.Locker.Files.{
  File, Locker, LockerEnv, is_file, content_of, read_file, read_dir, stat, on_database,
}
use medge_net.Locker.Requests.{
  sort_files, json_suffix, is_listed, entry_of, with_meta, load_meta, collect_file, collect_files,
  collect_ghost_entries, with_aliases, ghost_entries, or_any_owner, find_ghost_entry,
}
use medge_net.Locker.Xml.{Entry}
use medge_net.Store.{find}
use medge_net.Store.Stats.Keeps.{Ends-stmt}
use medge_net.Store.Stats.Stretches.{Tags, ghost_tag_to_stretches}
use medge_net.Text.{has_suffix}

-- The file that an entry stands for is not metadata.
abbrev pub NotMeta : Entry → Type 0
NotMeta entry = has_suffix entry.path json_suffix ≡ false

add_aliases_lem :
    (entry : Entry) (ids : List ℤ) (out : List Entry)
    → NotMeta entry
    → All NotMeta out
    → All NotMeta (add_aliases entry ids out)
unfolding add_aliases
add_aliases_lem entry [] out n h = h
add_aliases_lem entry (id ∷ ids) out n h = elim (Bool-cases (has_entry (alias_name id) out)) [
  | inl e ↦ rw e (add_aliases_lem entry ids out n h)
  | inr e ↦ rw e (add_aliases_lem entry ids _ n (All-append NotMeta out _ h (n, tt)))
]

aliases_of_lem :
    (tags : Tags) (entry : Entry) (tag : Option Bytes) (out : List Entry)
    → NotMeta entry
    → All NotMeta out
    → All NotMeta (aliases_of tags entry tag out)
unfolding aliases_of
aliases_of_lem tags entry none out n h = h
aliases_of_lem tags entry (some tag) out n h = add_aliases_lem entry _ out n h

alias_loop_lem :
    (tags : Tags) (es out : List Entry)
    → All NotMeta es
    → All NotMeta out
    → All NotMeta (alias_loop tags es out)
unfolding alias_loop
alias_loop_lem tags [] out n h = h
alias_loop_lem tags (e ∷ es) out n h =
    alias_loop_lem tags es _ n.1 (aliases_of_lem tags e (ghost_tag e.name) out n.0 h)

with_stretch_aliases_lem :
    (tags : Tags) (entries : List Entry)
    → All NotMeta entries
    → All NotMeta (with_stretch_aliases tags entries)
unfolding with_stretch_aliases
with_stretch_aliases_lem [] entries h = h
with_stretch_aliases_lem (t ∷ tags) entries h = alias_loop_lem (t ∷ tags) entries entries h h

abbrev pub FoundIn : Option Entry → Type 0
FoundIn none = Unit
FoundIn (some entry) = NotMeta entry

find_entry_by_name_lem :
    (es : List Entry) (name : Bytes) → All NotMeta es → FoundIn (find_entry_by_name es name)
unfolding find_entry_by_name
find_entry_by_name_lem [] name h = tt
find_entry_by_name_lem (e ∷ es) name h = elim (Bool-cases (equal e.name name)) [
  | inl q ↦ rw q h.0
  | inr q ↦ rw q (find_entry_by_name_lem es name h.1)
]

listed_not_meta :
    (prefix : Bytes) (f : File)
    → not (is_listed prefix f) ≡ false
    → has_suffix f.name json_suffix ≡ false
unfolding is_listed
listed_not_meta prefix f h = ground arith

with_meta_path : (entry : Entry) (meta : Option Entry) → (with_meta entry meta).path ≡ entry.path
unfolding with_meta
with_meta_path entry none = refl
with_meta_path entry (some meta) = refl

-- The content was read from a file of the directory.
pub record ReadFrom (files : List File) (name content : Bytes) : Type 0 where
  pub file : File
  pub found : find (is_file name) files ≡ some file
  pub is_regular : file.is_dir ≡ false
  pub same : file.content ≡ content

content_of_lem :
    (files : List File) (name : Bytes) (f : Option File)
    → find (is_file name) files ≡ f
    → Fine (ReadFrom files name) (content_of f)
content_of_lem files name none e = tt
content_of_lem files name (some f) e = elim (Bool-cases f.is_dir) [
  | inl d ↦ rw d tt
  | inr d ↦ rw d (record { file = f; found = e; is_regular = d; same = refl })
]

module _ (e : LockerEnv) (files : List File) where
  -- The directory holds these files.
  abbrev pub Same : Locker → Type 0
  Same w = w.files ≡ files

  pub read_file_lem : (name : Bytes) → Returns Same (ReadFrom files name) (read_file e name)
  unfolding read_file
  read_file_lem name = record {
    at = λ w i. elim (Bool-cases (e.env.fault w.store.ticks)) [
      | inl f ↦ rw f (tt, i)
      | inr f ↦ rw (f, i) (content_of_lem files name _ refl, refl)
    ];
  }

  read_dir_lem : Returns Same (λ _. Unit) (read_dir e)
  unfolding read_dir
  read_dir_lem = record {
    at = λ w i. elim (Bool-cases (e.env.fault w.store.ticks)) [
      | inl f ↦ rw f (tt, i)
      | inr f ↦ rw f (tt, i)
    ];
  }

  stat_lem : (f : File) → Returns Same (λ info. info ≡ f) (stat e f)
  unfolding stat
  stat_lem f = record {
    at = λ w i. elim (Bool-cases (e.env.fault w.store.ticks)) [
      | inl t ↦ rw t (tt, i)
      | inr t ↦ rw t (refl, i)
    ];
  }

  load_meta_lem : (path : Bytes) → Returns Same (λ _. Unit) (load_meta e path)
  unfolding load_meta
  load_meta_lem path =
      Replies-Returns _ (
        Replies-catch _ _ _ (read_file_lem _) (λ text _. Replies-pure _ tt)
          (λ _. Replies-pure _ tt))

  collect_file_lem :
      (prefix : Bytes) (f : File)
      → has_suffix f.name json_suffix ≡ false
      → Returns Same NotMeta (collect_file e prefix f)
  unfolding collect_file entry_of
  collect_file_lem prefix f h = Returns-bind _ _ (stat_lem f) λ info same.
      Returns-bind _ _ (load_meta_lem f.name)
        λ meta _. Returns-pure _ (rw (with_meta_path (entry_of e prefix info) meta, same) h)

  collect_files_lem :
      (prefix : Bytes) (fs : List File) → Returns Same (All NotMeta) (collect_files e prefix fs)
  unfolding collect_files
  collect_files_lem prefix [] = Returns-pure [] tt
  collect_files_lem prefix (f ∷ fs) =
      let later = collect_files_lem prefix fs in
      elim (Bool-cases (not (is_listed prefix f))) [
        | inl h ↦ rw h later
        | inr h ↦ rw h (
            Returns-bind _ _ (collect_file_lem prefix f (listed_not_meta prefix f h))
              λ entry n. Returns-bind _ _ later λ rest ns. Returns-pure (entry ∷ rest) (n, ns))
      ]

  collect_ghost_entries_lem :
      (prefix : Bytes) → Returns Same (All NotMeta) (collect_ghost_entries e prefix)
  unfolding collect_ghost_entries
  collect_ghost_entries_lem prefix =
      Returns-bind _ _ read_dir_lem λ fs _. collect_files_lem prefix (sort_files fs)

  tags_lem : Returns Same (λ _. Unit) (on_database (ghost_tag_to_stretches e.env))
  unfolding on_database ghost_tag_to_stretches
  tags_lem = record {
    at = λ w i. (outcome_lem _ ((Ends-stmt e.env _ (Ends-gets _)).at w.store), i);
  }

  with_aliases_lem :
      (entries : List Entry)
      → All NotMeta entries
      → Returns Same (All NotMeta) (with_aliases e entries)
  unfolding with_aliases
  with_aliases_lem entries h =
      Returns-bind _ _ tags_lem λ tags _. Returns-pure _ (with_stretch_aliases_lem tags entries h)

  pub ghost_entries_lem : (pers : Bytes) → Returns Same (All NotMeta) (ghost_entries e pers)
  unfolding ghost_entries
  ghost_entries_lem [] = Returns-pure [] tt
  ghost_entries_lem (c ∷ pers) =
      Returns-bind _ _ (collect_ghost_entries_lem ((c ∷ pers) ++ codes "_"))
        λ entries h. with_aliases_lem entries h

  or_any_owner_lem :
      (name : Bytes) (found : Option Entry)
      → FoundIn found
      → Returns Same FoundIn (or_any_owner e name found)
  unfolding or_any_owner
  or_any_owner_lem name none h = Returns-bind _ _ (collect_ghost_entries_lem []) λ fs n.
      Returns-bind _ _ (with_aliases_lem fs n)
        λ all ns. Returns-pure _ (find_entry_by_name_lem all name ns)
  or_any_owner_lem name (some entry) h = Returns-pure (some entry) h

  pub find_ghost_entry_lem :
      (pers name : Bytes) → Returns Same FoundIn (find_ghost_entry e pers name)
  unfolding find_ghost_entry
  find_ghost_entry_lem pers name =
      Returns-bind _ _ (ghost_entries_lem pers)
        λ entries h. or_any_owner_lem name _ (find_entry_by_name_lem entries name h)

  pub cap_lem :
      (entries : List Entry)
      → Replies Same (λ listed. length listed ≤ locker_list_max_entries) (cap_locker_list entries)
  cap_lem entries = record {
    at = λ w i.
        let (listed, q, short) = cap_locker_list_lem entries w in rw q ((listed, refl, short), i);
  }
