-- ===== src/Locker/Connection.antt =====
-- server/locker/server.go: `handleConnection`, the loop that reads a connection.
pub mod Chunks
use medge_net.Prelude.{ℕ, List, [], ◌∷◌, ◌++◌, Option, none, some, Bytes, length}
use medge_net.Exec.{Outcome, ok, err, panic}
use medge_net.Locker.Files.{Locker, LockerEnv}
use medge_net.Locker.Http.{
  HttpRequest, HttpParse, waiting, parsed, slice_panic, parse_http_request, build_http_response,
}
use medge_net.Locker.Requests.{Response, handle_http_request}
use medge_net.Loop.{Status, running, closed, crashed, receive_with, receive_all_with}

-- The connection: the bytes not yet read as a request (none when it is over), the responses written,
-- and the ghost directory with the database.
pub record HttpConn : Type 0 where
  pub status : Status
  pub buf : Bytes
  pub written : List Bytes
  pub world : Locker

unfoldable pub start_http : Locker → HttpConn
start_http w = record { status = running; buf = []; written = []; world = w }

-- `handleRequest` returns no error.
after_request : Outcome Response → Locker → HttpConn → HttpConn
after_request (ok r) w c = record c {
  written = c.written ++ build_http_response r.code r.body r.content_type ∷ [];
  world = w;
}
after_request (err e) w c = record c { status = crashed; buf = []; world = w }
after_request panic w c = record c { status = crashed; buf = []; world = w }

-- `buf = append(buf, tmp[:n]...)`
unfoldable pub push_http : Bytes → HttpConn → HttpConn
push_http chunk c = elim c.status [
  | running ↦ record c { buf = c.buf ++ chunk }
  | closed ↦ c
  | crashed ↦ c
]

-- The end of the connection or an error of a read.
abbrev close_http : HttpConn → HttpConn
close_http c = elim c.status [
  | running ↦ record c { status = closed; buf = [] }
  | closed ↦ c
  | crashed ↦ c
]

-- `strings.ToLower`.
module _ (to_lower : Bytes → Bytes) (e : LockerEnv) where
  -- One request, behind which `rest` stands in the buffer.
  unfoldable pub on_request : HttpRequest → Bytes → HttpConn → HttpConn
  unfolding after_request
  on_request req rest c =
      let (r, w) = handle_http_request e req.path req.body c.world in
      after_request r w (record c { buf = rest })

  unfoldable pub on_parse : HttpParse → HttpConn → Option HttpConn
  on_parse waiting c = none
  on_parse (parsed req rest) c = some (on_request req rest c)
  on_parse slice_panic c = some (record c { status = crashed; buf = [] })

  -- One round of the inner loop.
  unfoldable pub next_request : HttpConn → Option HttpConn
  unfolding on_parse
  next_request c = elim c.status [
    | running ↦ on_parse (parse_http_request to_lower c.buf) c
    | closed ↦ none
    | crashed ↦ none
  ]

  -- The reads up to the one that fails.
  unfoldable pub receive_requests : List Bytes → HttpConn → HttpConn
  unfolding receive_all_with
  receive_requests = receive_all_with next_request (λ c. length c.buf) push_http

  unfoldable pub handle_connection : List Bytes → Locker → HttpConn
  unfolding receive_requests start_http
  handle_connection chunks w = close_http (receive_requests chunks (start_http w))
