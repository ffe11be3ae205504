-- ===== src/Locker/Requests/Files/Others.antt =====
-- server/locker/server.go: the calls of a request leave the other files as they are.
use medge_net.Prelude.{
  ℕ, ◌≡◌, ◌≢◌, inl, inr, refl, sym, ◌∙◌, false, not, ◌||◌, List, [], ◌∷◌, ◌++◌, Option, none, some,
  Bytes, equal, equal_iff, Bool-cases,
}
use medge_net.Exec.{Run}
use medge_net.Exec.Keeps.{Keeps, keeps_rules, Keeps-bind, Keeps-if, Keeps-pure}
use medge_net.Locker.Files.{
  File, Locker, LockerEnv, on_database, is_file, directory_at, torn_file, put_file, read_file,
  write_file, mkdir_all, read_dir, stat, now,
}
use medge_net.Locker.Requests.{
  wanted, is_listed, json_suffix, file_name, load_meta, save_meta, collect_file, collect_files,
  collect_ghost_entries, with_aliases, ghost_entries, or_any_owner, find_ghost_entry, handle_dir,
  handle_nfo, send_entry, handle_get, store_ghost,
}
use medge_net.Locker.Entries.{cap_locker_list}
use medge_net.Locker.Xml.{Entry}
use medge_net.Packet.{Params}
use medge_net.Store.{Store, find, put}

differs : (s t : Bytes) → s ≢ t → equal s t ≡ false
differs s t h = elim (Bool-cases (equal s t)) [
  | inl e ↦ absurd (h ((equal_iff s t).0 e))
  | inr e ↦ e
]

-- A file that is put in is not found under another name.
find-put :
    (a n : Bytes) (row : File) (rows : List File)
    → row.name ≡ a
    → a ≢ n
    → find (is_file n) (put (is_file a) row rows) ≡ find (is_file n) rows
unfolding find put
find-put a n row [] e h = rw (differs row.name n (λ p. h (sym e ∙ p))) refl
find-put a n row (x ∷ xs) e h = elim (Bool-cases (is_file a x)) [
  | inl f ↦
      let same = (equal_iff x.name a).0 f in
      rw (f, differs row.name n (λ p. h (sym e ∙ p)), differs x.name n (λ p. h (sym same ∙ p))) refl
  | inr f ↦ rw (f, find-put a n row xs e h) refl
]

module _ (e : LockerEnv) (n : Bytes) (before : Option File) where
  -- The file of the name `n` is as it was.
  abbrev pub Same : Locker → Type 0
  Same w = find (is_file n) w.files ≡ before

  on_database_lem {ℓ} : {A : Type ℓ} (m : Run Store A) → Keeps Same (on_database m)
  unfolding on_database
  on_database_lem m = record { at = λ w h. h }

  read_file_lem : (name : Bytes) → Keeps Same (read_file e name)
  unfolding read_file
  read_file_lem name = record {
    at = λ w h. elim (Bool-cases (e.env.fault w.store.ticks)) [ inl f ↦ rw f h | inr f ↦ rw f h ];
  }

  read_dir_lem : Keeps Same (read_dir e)
  unfolding read_dir
  read_dir_lem = record {
    at = λ w h. elim (Bool-cases (e.env.fault w.store.ticks)) [ inl f ↦ rw f h | inr f ↦ rw f h ];
  }

  mkdir_all_lem : Keeps Same (mkdir_all e)
  unfolding mkdir_all
  mkdir_all_lem = record {
    at = λ w h. elim (Bool-cases (e.env.fault w.store.ticks)) [ inl f ↦ rw f h | inr f ↦ rw f h ];
  }

  stat_lem : (f : File) → Keeps Same (stat e f)
  unfolding stat
  stat_lem f = record {
    at = λ w h. elim (Bool-cases (e.env.fault w.store.ticks)) [ inl f ↦ rw f h | inr f ↦ rw f h ];
  }

  now_lem : Keeps Same (now e)
  unfolding now
  now_lem = record { at = λ w h. h }

  load_meta_lem : (path : Bytes) → Keeps Same (load_meta e path)
  unfolding load_meta
  load_meta_lem path = search (keeps_rules, read_file_lem)

  collect_file_lem : (prefix : Bytes) (f : File) → Keeps Same (collect_file e prefix f)
  unfolding collect_file
  collect_file_lem prefix f = search (keeps_rules, stat_lem, load_meta_lem)

  collect_files_lem : (prefix : Bytes) (fs : List File) → Keeps Same (collect_files e prefix fs)
  unfolding collect_files
  collect_files_lem prefix [] = search keeps_rules
  collect_files_lem prefix (f ∷ fs) =
      let later = collect_files_lem prefix fs in
      Keeps-if (not (is_listed prefix f)) _ _ later (
        Keeps-bind _ _ (collect_file_lem prefix f)
          (λ entry. Keeps-bind _ _ later (λ rest. Keeps-pure (entry ∷ rest))))

  collect_ghost_entries_lem : (prefix : Bytes) → Keeps Same (collect_ghost_entries e prefix)
  unfolding collect_ghost_entries
  collect_ghost_entries_lem prefix = search (keeps_rules, read_dir_lem, collect_files_lem)

  with_aliases_lem : (entries : List Entry) → Keeps Same (with_aliases e entries)
  unfolding with_aliases
  with_aliases_lem entries = search (keeps_rules, on_database_lem)

  ghost_entries_lem : (pers : Bytes) → Keeps Same (ghost_entries e pers)
  unfolding ghost_entries
  ghost_entries_lem pers = search (keeps_rules, collect_ghost_entries_lem, with_aliases_lem)

  or_any_owner_lem : (name : Bytes) (found : Option Entry) → Keeps Same (or_any_owner e name found)
  unfolding or_any_owner
  or_any_owner_lem name none = search (keeps_rules, collect_ghost_entries_lem, with_aliases_lem)
  or_any_owner_lem name (some entry) = search keeps_rules

  find_ghost_entry_lem : (pers name : Bytes) → Keeps Same (find_ghost_entry e pers name)
  unfolding find_ghost_entry
  find_ghost_entry_lem pers name = search (keeps_rules, ghost_entries_lem, or_any_owner_lem)

  cap_locker_list_lem : (entries : List Entry) → Keeps Same (cap_locker_list entries)
  unfolding cap_locker_list
  cap_locker_list_lem entries = search keeps_rules

  wanted_lem : (name : Bytes) (entries : List Entry) → Keeps Same (wanted name entries)
  unfolding wanted
  wanted_lem name entries = search (keeps_rules, cap_locker_list_lem)

  pub handle_dir_lem : (params : Params) (pers : Bytes) → Keeps Same (handle_dir e params pers)
  unfolding handle_dir
  handle_dir_lem params pers =
      search (keeps_rules, ghost_entries_lem, cap_locker_list_lem, wanted_lem)

  pub handle_nfo_lem :
      (params : Params) (pers name : Bytes) → Keeps Same (handle_nfo e params pers name)
  unfolding handle_nfo
  handle_nfo_lem params pers name =
      search (keeps_rules, ghost_entries_lem, cap_locker_list_lem, wanted_lem)

  send_entry_lem : (found : Option Entry) → Keeps Same (send_entry e found)
  unfolding send_entry
  send_entry_lem none = search keeps_rules
  send_entry_lem (some entry) = search (keeps_rules, read_file_lem)

  pub handle_get_lem : (pers name : Bytes) → Keeps Same (handle_get e pers name)
  unfolding handle_get
  handle_get_lem pers name = search (keeps_rules, find_ghost_entry_lem, send_entry_lem)

  put_file_lem : (a content : Bytes) (w : Locker) → a ≢ n → Same w → Same (put_file e a content w)
  put_file_lem a content w h s = find-put a n _ w.files refl h ∙ s

  torn_file_lem :
      (a content : Bytes) (torn : Option ℕ) (w : Locker)
      → a ≢ n
      → Same w
      → Same (torn_file e a content torn w)
  torn_file_lem a content none w h s = s
  torn_file_lem a content (some k) w h s = put_file_lem a _ w h s

  write_file_lem : (a content : Bytes) → a ≢ n → Keeps Same (write_file e a content)
  unfolding write_file
  write_file_lem a content h = record {
    at = λ w s. elim (Bool-cases (directory_at (find (is_file a) w.files) || not w.exists)) [
      | inl d ↦ rw d s
      | inr d ↦ elim (Bool-cases (e.env.fault w.store.ticks)) [
        | inl f ↦ rw (d, f) (torn_file_lem a content (e.torn w.store.ticks) w h s)
        | inr f ↦ rw (d, f) (put_file_lem a content w h s)
      ]
    ];
  }

  pub store_ghost_lem :
      (params : Params) (pers name body : Bytes)
      → file_name e pers name ≢ n
      → file_name e pers name ++ json_suffix ≢ n
      → Keeps Same (store_ghost e params pers name body)
  unfolding store_ghost save_meta
  store_ghost_lem params pers name body h j =
      search (keeps_rules, mkdir_all_lem, now_lem, write_file_lem, h, j)
