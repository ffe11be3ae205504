-- ===== src/Locker/Requests.antt =====
-- server/locker/server.go: `handleRequest` over the ghost directory.
pub mod Files
pub mod Answers
mod Ghosts
unfoldable pub use Ghosts.*
use medge_net.Prelude.{
  ℕ, ◌+◌, Bool, not, ◌&&◌, ◌||◌, List, [], ◌∷◌, ◌++◌, Option, none, some, Bytes, codes, equal,
  length, if◌then◌else◌,
}
use medge_net.Prelude.Int.{ℤ, pos}
use medge_net.Exec.{Error, Run, pure, catch, ◌>>=◌, ◌>>◌}
use medge_net.Fesl.Validate.{exceeds}
use medge_net.Locker.Entries.{cap_locker_list, named}
use medge_net.Locker.Files.{Locker, Url, LockerEnv, read_file, write_file, mkdir_all, now}
use medge_net.Locker.Identifier.{safe_identifier}
use medge_net.Locker.Xml.{Entry, build_xml}
use medge_net.Packet.{Params, param}
use medge_net.Text.{contains, is_empty}
use medge_net.Text.Number.{parse_int}

-- What `handleRequest` returns.
pub record Response : Type 0 where
  pub code : ℕ
  pub body : Bytes
  pub content_type : Bytes

abbrev pub xml : Bytes → Response
xml body = record { code = 200; body = body; content_type = codes "text/xml" }

abbrev pub locker_error : Response
locker_error = xml (codes "<LOCKER error=\"1\"/>")

abbrev pub no_file : Response
no_file = record { code = 404; body = []; content_type = codes "application/octet-stream" }

abbrev pub atoi64 : Bytes → ℤ
atoi64 value = (parse_int value).0

-- The files that `nfo` lists.
unfoldable pub wanted : Bytes → List Entry → Run Locker (List Entry)
wanted name entries = if is_empty name then cap_locker_list entries else pure (named name entries)

module _ (e : LockerEnv) where
  abbrev pub is_safe : Bytes → Bool
  is_safe value = safe_identifier e.env.cfg.max_identifier_length value

  abbrev refuse : Error → Run Locker Response
  refuse _ = pure locker_error

  unfoldable pub handle_dir : Params → Bytes → Run Locker Response
  unfolding ghost_entries
  handle_dir params pers =
      if not (is_safe pers)
      then pure locker_error
      else catch (ghost_entries e pers)
          (λ entries. cap_locker_list entries >>= λ listed.
            pure (xml (build_xml listed (param params (codes "game")) pers)))
          refuse

  unfoldable pub handle_nfo : Params → Bytes → Bytes → Run Locker Response
  unfolding ghost_entries wanted
  handle_nfo params pers name =
      if not (is_safe pers) || not (is_empty name) && not (is_safe name)
      then pure locker_error
      else catch (ghost_entries e pers)
          (λ entries. wanted name entries >>= λ listed.
            pure (xml (build_xml listed (param params (codes "game")) pers)))
          refuse

  abbrev missing : Error → Run Locker Response
  missing _ = pure no_file

  unfoldable pub send_entry : Option Entry → Run Locker Response
  send_entry none = pure no_file
  send_entry (some entry) =
      catch (read_file e entry.path)
        (λ content.
          pure (record {
            code = 200;
            body = content;
            content_type = codes "application/octet-stream";
          }))
        missing

  unfoldable pub handle_get : Bytes → Bytes → Run Locker Response
  unfolding find_ghost_entry send_entry
  handle_get pers name =
      if not (is_safe pers) || not (is_safe name)
      then pure no_file
      else catch (find_ghost_entry e pers name) send_entry missing

  -- `pers + "_" + name`
  abbrev pub file_name : Bytes → Bytes → Bytes
  file_name pers name = pers ++ (codes "_" ++ name)

  unfoldable pub new_entry : Params → Bytes → Bytes → Bytes → ℤ → Entry
  new_entry params pers name body time = record {
    name = name;
    desc = param params (codes "desc");
    game = param params (codes "game");
    typ = param params (codes "type");
    idnt = param params (codes "idnt");
    date = time;
    file_id = file_id_of e (file_name pers name);
    attributes = atoi64 (param params (codes "attr"));
    size = pos (length body);
    locs = atoi64 (param params (codes "locs"));
    perm = atoi64 (param params (codes "perm"));
    vers = atoi64 (param params (codes "vers"));
    path = [];
  }

  unfoldable pub store_ghost : Params → Bytes → Bytes → Bytes → Run Locker Entry
  unfolding new_entry save_meta
  store_ghost params pers name body = do
    mkdir_all e
    write_file e (file_name pers name) body
    time ← now e
    let entry = new_entry params pers name body time
    save_meta e (file_name pers name) entry
    pure entry

  unfoldable pub handle_put : Params → Bytes → Bytes → Bytes → Run Locker Response
  unfolding store_ghost
  handle_put params pers name body =
      if exceeds (length body) e.env.cfg.max_upload_bytes
        || (not (is_safe pers) || not (is_safe name))
      then pure locker_error
      else catch (store_ghost params pers name body)
          (λ entry. pure (xml (build_xml (entry ∷ []) [] []))) refuse

  unfoldable pub run_command : Params → Bytes → Run Locker Response
  unfolding handle_dir handle_nfo handle_get handle_put
  run_command params body =
      let cmd = param params (codes "cmd") in
      let pers = param params (codes "pers") in
      let name = param params (codes "name") in
      if equal cmd (codes "dir")
      then handle_dir params pers
      else if equal cmd (codes "nfo")
      then handle_nfo params pers name
      else if equal cmd (codes "get")
      then handle_get pers name
      else if equal cmd (codes "put")
      then handle_put params pers name body
      else pure (xml (codes "<LOCKER error=\"0\"/>"))

  unfoldable pub on_url : Bytes → Option Url → Run Locker Response
  unfolding run_command
  on_url body none = pure (record { code = 404; body = []; content_type = codes "text/xml" })
  on_url body (some url) =
      if equal url.path (codes "/healthz")
      then pure (record { code = 200; body = codes "ok\n"; content_type = codes "text/plain" })
      else if contains url.path (codes "/easo/editorial") || contains url.path (codes "/version")
      then pure (xml e.env.cfg.game_version)
      else run_command url.query body

  -- The method and the headers are not looked at.
  unfoldable pub handle_http_request : Bytes → Bytes → Run Locker Response
  unfolding on_url
  handle_http_request path body = on_url body (e.parse_url path)
