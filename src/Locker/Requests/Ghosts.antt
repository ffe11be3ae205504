-- ===== src/Locker/Requests/Ghosts.antt =====
-- server/locker/server.go: the ghosts that the directory holds, with their metadata.
use medge_net.Prelude.{
  ◌%◌, ◌^◌, Bool, not, ◌&&◌, ◌||◌, List, [], ◌∷◌, ◌++◌, Option, none, some, Bytes, codes, length,
  drop, if◌then◌else◌,
}
use medge_net.Prelude.Int.{ℤ, pos, ◌==ℤ◌}
use medge_net.Exec.{Run, pure, catch, ◌>>=◌}
use medge_net.Locker.Entries.{find_entry_by_name, with_stretch_aliases}
use medge_net.Locker.Files.{
  File, Locker, LockerEnv, on_database, read_file, write_file, read_dir, stat,
}
use medge_net.Locker.Xml.{Entry}
use medge_net.Store.Friends.{bytes_leb}
use medge_net.Store.Stats.Stretches.{ghost_tag_to_stretches}
use medge_net.Text.{cut, has_prefix, has_suffix, is_empty}

abbrev pub json_suffix : Bytes
json_suffix = codes ".json"

unfoldable pub insert_file : File → List File → List File
insert_file f [] = f ∷ []
insert_file f (g ∷ gs) =
    let rest = insert_file f gs in if bytes_leb f.name g.name then f ∷ g ∷ gs else g ∷ rest

-- `sort.Slice` by name; names differ.
unfoldable pub sort_files : List File → List File
unfolding insert_file
sort_files [] = []
sort_files (f ∷ fs) = insert_file f (sort_files fs)

abbrev after_cut : Bytes → Option (Bytes × Bytes) → Bytes
after_cut name none = name
after_cut name (some (owner, rest)) = rest

unfoldable pub ghost_name : Bytes → Bytes → Bytes
ghost_name prefix name =
    if not (is_empty prefix) then drop (length prefix) name else after_cut name (cut b'_' name)

unfoldable pub is_listed : Bytes → File → Bool
is_listed prefix f =
    not (f.is_dir || has_suffix f.name json_suffix) && (is_empty prefix || has_prefix f.name prefix)

abbrev pub or_text : Bytes → Bytes → Bytes
or_text given fallback = if is_empty given then fallback else given

abbrev pub or_number : ℤ → ℤ → ℤ
or_number given fallback = if given ==ℤ pos 0 then fallback else given

-- What the metadata says goes before what the directory says.
unfoldable pub with_meta : Entry → Option Entry → Entry
with_meta entry none = entry
with_meta entry (some meta) = record entry {
  name = or_text meta.name entry.name;
  desc = meta.desc;
  game = or_text meta.game entry.game;
  typ = meta.typ;
  idnt = meta.idnt;
  date = or_number meta.date entry.date;
  file_id = or_number meta.file_id entry.file_id;
  attributes = meta.attributes;
  locs = meta.locs;
  perm = meta.perm;
  vers = meta.vers;
}

module _ (e : LockerEnv) where
  -- `crc32.ChecksumIEEE(name) & 0x7fffffff`
  abbrev pub file_id_of : Bytes → ℤ
  file_id_of name = pos (e.crc32 name % 2 ^ 31)

  -- A path is the name of the file in the directory.
  unfoldable pub entry_of : Bytes → File → Entry
  unfolding ghost_name
  entry_of prefix f = record {
    name = ghost_name prefix f.name;
    desc = [];
    game = codes "MEPC";
    typ = [];
    idnt = [];
    date = f.modified;
    file_id = file_id_of f.name;
    attributes = pos 0;
    size = pos (length f.content);
    locs = pos 0;
    perm = pos 0;
    vers = pos 0;
    path = f.name;
  }

  -- Any error leaves the metadata out.
  unfoldable pub load_meta : Bytes → Run Locker (Option Entry)
  load_meta path =
      catch (read_file e (path ++ json_suffix)) (λ text. pure (e.load text)) (λ _. pure none)

  unfoldable pub save_meta : Bytes → Entry → Run Locker (Unit {0})
  save_meta path entry = write_file e (path ++ json_suffix) (e.save entry)

  unfoldable pub collect_file : Bytes → File → Run Locker Entry
  unfolding entry_of with_meta load_meta
  collect_file prefix f = do
    info ← stat e f
    meta ← load_meta f.name
    pure (with_meta (entry_of prefix info) meta)

  unfoldable pub collect_files : Bytes → List File → Run Locker (List Entry)
  unfolding collect_file is_listed
  collect_files prefix [] = pure []
  collect_files prefix (f ∷ fs) =
      let later = collect_files prefix fs in
      if not (is_listed prefix f)
      then later
      else do entry ← collect_file prefix f; rest ← later; pure (entry ∷ rest)

  unfoldable pub collect_ghost_entries : Bytes → Run Locker (List Entry)
  unfolding collect_files sort_files
  collect_ghost_entries prefix = do files ← read_dir e; collect_files prefix (sort_files files)

  unfoldable pub with_aliases : List Entry → Run Locker (List Entry)
  with_aliases entries = do
    tags ← on_database (ghost_tag_to_stretches e.env)
    pure (with_stretch_aliases tags entries)

  unfoldable pub ghost_entries : Bytes → Run Locker (List Entry)
  unfolding with_aliases collect_ghost_entries
  ghost_entries pers =
      if is_empty pers
      then pure []
      else do entries ← collect_ghost_entries (pers ++ codes "_"); with_aliases entries

  unfoldable pub or_any_owner : Bytes → Option Entry → Run Locker (Option Entry)
  or_any_owner name (some entry) = pure (some entry)
  or_any_owner name none = do
    files ← collect_ghost_entries []
    all ← with_aliases files
    pure (find_entry_by_name all name)

  unfoldable pub find_ghost_entry : Bytes → Bytes → Run Locker (Option Entry)
  unfolding ghost_entries or_any_owner
  find_ghost_entry pers name = do
    entries ← ghost_entries pers
    or_any_owner name (find_entry_by_name entries name)
