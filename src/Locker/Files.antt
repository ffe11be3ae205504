-- ===== src/Locker/Files.antt =====
-- The ghost directory, which server/locker/server.go reads and writes through `os`, and the libraries
-- that the locker calls.
use medge_net.Prelude.{
  ℕ, ◌+◌, Bool, true, false, not, ◌||◌, List, [], Option, none, some, Bytes, equal, take,
  if◌then◌else◌,
}
use medge_net.Prelude.Int.{ℤ}
use medge_net.Env.{Env}
use medge_net.Exec.{Outcome, ok, err, io_error, Run}
use medge_net.Locker.Xml.{Entry}
use medge_net.Packet.{Params}
use medge_net.Store.{Store, find, put}

-- An entry of the directory.
pub record File : Type 0 where
  pub name : Bytes
  pub content : Bytes
  pub modified : ℤ
  pub is_dir : Bool

-- The directory, if it exists, with entries in any order, and the database.
pub record Locker : Type 0 where
  pub exists : Bool
  pub files : List File
  pub store : Store

-- `url.Parse` of a request's path, with the first value of each key of `Query`.
pub record Url : Type 0 where
  pub path : Bytes
  pub query : Params

-- `unix t` is the time at tick `t`. A write that fails there has left the first `torn t` bytes in the
-- file, or has not opened it. `load` and `save` are the JSON of an entry; `load` gives `none` on an
-- error.
pub record LockerEnv : Type 0 where
  pub env : Env
  pub unix : ℕ → ℤ
  pub torn : ℕ → Option ℕ
  pub crc32 : Bytes → ℕ
  pub parse_url : Bytes → Option Url
  pub save : Entry → Bytes
  pub load : Bytes → Option Entry

unfoldable pub on_database {ℓ} : {A : Type ℓ} → Run Store A → Run Locker A
on_database m w = let (r, s) = m w.store in (r, record w { store = s })

abbrev pub is_file : Bytes → File → Bool
is_file name f = equal f.name name

-- The state with its clock moved on.
abbrev pub ticked : Locker → Locker
ticked w = record w { store = record w.store { ticks = w.store.ticks + 1 } }

abbrev pub content_of : Option File → Outcome Bytes
content_of none = err io_error
content_of (some f) = if f.is_dir then err io_error else ok f.content

abbrev pub directory_at : Option File → Bool
directory_at none = false
directory_at (some f) = f.is_dir

module _ (e : LockerEnv) where
  -- `os.ReadFile`
  unfoldable pub read_file : Bytes → Run Locker Bytes
  read_file name w =
      if e.env.fault w.store.ticks
      then (err io_error, ticked w)
      else (content_of (find (is_file name) w.files), ticked w)

  abbrev pub put_file : Bytes → Bytes → Locker → Locker
  put_file name content w = record w {
    files =
        put (is_file name)
          (record {
            name = name;
            content = content;
            modified = e.unix w.store.ticks;
            is_dir = false;
          })
          w.files;
  }

  abbrev pub torn_file : Bytes → Bytes → Option ℕ → Locker → Locker
  torn_file name content none w = w
  torn_file name content (some n) w = put_file name (take n content) w

  -- `os.WriteFile`, which fails for a directory and in one that does not exist.
  unfoldable pub write_file : Bytes → Bytes → Run Locker (Unit {0})
  write_file name content w =
      if directory_at (find (is_file name) w.files) || not w.exists
      then (err io_error, ticked w)
      else if e.env.fault w.store.ticks
      then (err io_error, ticked (torn_file name content (e.torn w.store.ticks) w))
      else (ok tt, ticked (put_file name content w))

  -- `os.MkdirAll` of the directory.
  unfoldable pub mkdir_all : Run Locker (Unit {0})
  mkdir_all w =
      if e.env.fault w.store.ticks
      then (err io_error, ticked w)
      else (ok tt, ticked (record w { exists = true }))

  -- `os.ReadDir`, which is empty where the directory does not exist: the caller takes that error so.
  unfoldable pub read_dir : Run Locker (List File)
  read_dir w =
      if e.env.fault w.store.ticks
      then (err io_error, ticked w)
      else (ok (if w.exists then w.files else []), ticked w)

  -- `file.Info()`
  unfoldable pub stat : File → Run Locker File
  stat f w = if e.env.fault w.store.ticks then (err io_error, ticked w) else (ok f, ticked w)

  -- `time.Now().Unix()`
  unfoldable pub now : Run Locker ℤ
  now w = (ok (e.unix w.store.ticks), w)
