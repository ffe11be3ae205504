-- ===== src/Tests/Ghosts.antt =====
-- Requests to the file locker.
use medge_net.Prelude.{◌≡◌, ◌⊎◌, refl, ◌++◌, true, false, equal, [], ◌∷◌, some, none, codes}
use medge_net.Prelude.Int.{pos}
use medge_net.Exec.{ok, catch, ◌>>=◌}
use medge_net.Locker.Entries.{find_entry_by_name, with_stretch_aliases}
use medge_net.Store.Friends.{bytes_leb}
use medge_net.Store.Stats.Stretches.{ghost_tag_to_stretches}
use medge_net.Packet.{param}
use medge_net.Locker.Identifier.{safe_identifier}
use medge_net.Locker.Files.{
  File, Locker, Url, LockerEnv, is_file, read_dir, mkdir_all, write_file, read_file, stat,
  on_database, now,
}
use medge_net.Locker.Requests.{Response, handle_http_request}
use medge_net.Locker.Requests.Answers.{Reply, query_of, handle_http_request-Reply}
use medge_net.Locker.Requests.Files.{Stores, handle_http_request-Stores}
use medge_net.Locker.Connection.{handle_connection}
use medge_net.Locker.Connection.Chunks.{handle_connection_chunking}
use medge_net.Locker.Http.{end_of_headers}
use medge_net.Store.{find, put, stmt}
use medge_net.Text.{contains, cut, has_prefix, has_suffix}
use mathlib.Core.List.{flatten}
use medge_net.Tests.Samples.{calm_env, two_runners}

-- The request's path is its command; the persona and the ghost are always the same.
abbrev ghost_env : LockerEnv
ghost_env = record {
  env = calm_env;
  unix = λ t. pos 1704067200;
  torn = λ t. none;
  crc32 = λ text. 7;
  parse_url = λ text. some (record {
    path = codes "/locker";
    query =
        (record { key = codes "cmd"; value = text })
        ∷ (record { key = codes "pers"; value = codes "Faith" })
        ∷ (record { key = codes "name"; value = codes "ghost" })
        ∷ [];
  });
  save = λ entry. codes "{}";
  load = λ text. none;
}

abbrev put_url : Url
put_url = record {
  path = codes "/locker";
  query =
      (record { key = codes "cmd"; value = codes "put" })
      ∷ (record { key = codes "pers"; value = codes "Faith" })
      ∷ (record { key = codes "name"; value = codes "ghost" })
      ∷ [];
}

abbrev other_file : File
other_file = record {
  name = codes "Kate_run";
  content = codes "old";
  modified = pos 5;
  is_dir = false;
}

abbrev one_ghost : Locker
one_ghost = record { exists = true; files = other_file ∷ []; store = two_runners }

abbrev after_put : Locker
after_put = (handle_http_request ghost_env (codes "put") (codes "abc") one_ghost).1

put_then_get :
    (handle_http_request ghost_env (codes "get") [] after_put).0
    ≡ ok
        (record { code = 200; body = codes "abc"; content_type = codes "application/octet-stream" })
unfolding handle_http_request equal codes contains has_prefix has_suffix cut param safe_identifier
    catch ◌>>=◌ read_dir mkdir_all write_file read_file stat on_database now find put bytes_leb
    ghost_tag_to_stretches stmt find_entry_by_name with_stretch_aliases
put_then_get = refl

handle_http_request-Stores_example :
    (find (is_file (codes "Kate_run")) after_put.files
      ≡ find (is_file (codes "Kate_run")) one_ghost.files)
    ⊎ Stores ghost_env put_url.query (codes "Kate_run")
handle_http_request-Stores_example =
    handle_http_request-Stores ghost_env (codes "put") (codes "abc") (codes "Kate_run") one_ghost
      put_url refl

-- A `get` without a body, cut in two.
handle_connection_chunking_example :
    handle_connection
      (λ s. s)
      ghost_env
      (codes "GET get HT" ∷ (codes "TP/1.1" ++ end_of_headers) ∷ [])
      one_ghost
    ≡ handle_connection
        (λ s. s)
        ghost_env
        ((codes "GET get HTTP/1.1" ++ end_of_headers) ∷ [])
        one_ghost
unfolding codes flatten
handle_connection_chunking_example =
    handle_connection_chunking (λ s. s) ghost_env
      (codes "GET get HT" ∷ (codes "TP/1.1" ++ end_of_headers) ∷ [])
      ((codes "GET get HTTP/1.1" ++ end_of_headers) ∷ []) one_ghost refl

handle_http_request-Reply_example :
    (r : Response) × ((handle_http_request ghost_env (codes "get") [] after_put).0 ≡ ok r)
    × Reply ghost_env after_put.files (query_of (ghost_env.parse_url (codes "get"))) [] r
handle_http_request-Reply_example = handle_http_request-Reply ghost_env (codes "get") [] after_put
