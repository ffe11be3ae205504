-- ===== src/Locker/Connection/Chunks.antt =====
-- How the network cuts the bytes of requests makes no difference.
use medge_net.Prelude.{
  suc, ◌<◌, ◌≡◌, refl, List, [], ◌∷◌, ◌++◌, Option, none, some, Bytes, length, arith, append_assoc,
  append-nil, length-append,
}
use medge_net.Locker.Files.{Locker, LockerEnv}
use medge_net.Locker.Http.{
  HttpRequest, HttpParse, waiting, parsed, slice_panic, cut_at, end_of_headers, parse_http_request,
}
use medge_net.Locker.Http.Stream.{
  parse_http_request-append, parse_http_request-append_panic, parse_http_request_bytes,
}
use medge_net.Locker.Connection.{
  HttpConn, start_http, push_http, on_request, on_parse, next_request, receive_requests,
  handle_connection,
}
use medge_net.Loop.{running}
use medge_net.Loop.Chunks.{Stream, receive_all_with_chunking}
use mathlib.Core.List.{flatten}

module _ (to_lower : Bytes → Bytes) (e : LockerEnv) where
  abbrev round : HttpConn → Option HttpConn
  round = next_request to_lower e

  push-on_request :
      (y : Bytes) (req : HttpRequest) (r : Bytes) (c : HttpConn)
      → c.status ≡ running
      → push_http y (on_request to_lower e req r c) ≡ on_request to_lower e req (r ++ y) c
  unfolding push_http on_request
  push-on_request y req r c h = ground arith

  on_request-push :
      (y : Bytes) (req : HttpRequest) (r : Bytes) (c : HttpConn)
      → on_request to_lower e req r (push_http y c) ≡ on_request to_lower e req r c
  unfolding push_http on_request
  on_request-push y req r c = ground arith

  next-push_parsed :
      (y : Bytes) (c c' : HttpConn) (p : HttpParse)
      → c.status ≡ running
      → parse_http_request to_lower c.buf ≡ p
      → on_parse to_lower e p c ≡ some c'
      → round (push_http y c) ≡ some (push_http y c')
  unfolding next_request push_http
  next-push_parsed y c c' waiting h q k = cc
  next-push_parsed y c c' slice_panic h q k =
      ground (arith, parse_http_request-append_panic to_lower c.buf y q)
  next-push_parsed y c c' (parsed req r) h q k = ground (
    arith,
    parse_http_request-append to_lower c.buf y req r q,
    push-on_request y req r c h,
    on_request-push y req (r ++ y) c,
  )

  next_running :
      (c : HttpConn) {c' : HttpConn}
      → round c ≡ some c'
      → (c.status ≡ running) × (on_parse to_lower e (parse_http_request to_lower c.buf) c ≡ some c')
  unfolding next_request
  next_running c h = ground arith

  on_request_buf :
      (req : HttpRequest) (r : Bytes) (c : HttpConn)
      → length (on_request to_lower e req r c).buf < suc (length r)
  unfolding on_request
  on_request_buf req r c = ground arith

  parsed_shorter :
      (input : Bytes) (req : HttpRequest) (rest : Bytes)
      → parse_http_request to_lower input ≡ parsed req rest
      → length rest < length input
  parsed_shorter input req rest h =
      let (head, q) = parse_http_request_bytes to_lower input req rest h in
      rw q (
        omega (
          arith,
          length-append head (end_of_headers ++ (req.body ++ rest)),
          length-append req.body rest,
        ))

  panic_nonempty :
      (input : Bytes) → parse_http_request to_lower input ≡ slice_panic → 0 < length input
  unfolding parse_http_request cut_at
  panic_nonempty [] h = ground arith
  panic_nonempty (b ∷ input) h = omega arith

  progress_parsed :
      (c c' : HttpConn) (p : HttpParse)
      → parse_http_request to_lower c.buf ≡ p
      → on_parse to_lower e p c ≡ some c'
      → length c'.buf < length c.buf
  unfolding on_parse
  progress_parsed c c' waiting q k = cc
  progress_parsed c c' slice_panic q k = ground (arith, panic_nonempty c.buf q)
  progress_parsed c c' (parsed req r) q k =
      ground (arith, parsed_shorter c.buf req r q, on_request_buf req r c)

  push_http-push : (x y : Bytes) (c : HttpConn) → push_http y (push_http x c) ≡ push_http (x ++ y) c
  unfolding push_http
  push_http-push x y c = ground (arith, append_assoc c.buf x y)

  push_http-nil : (c : HttpConn) → push_http [] c ≡ c
  unfolding push_http
  push_http-nil c = ground (arith, append-nil c.buf)

  requests : Stream round (λ c. length c.buf) push_http
  requests = record {
    next-push = λ y c c' h.
        let (r, k) = next_running c h in
        next-push_parsed y c c' (parse_http_request to_lower c.buf) r refl k;
    progress = λ c c' h.
        let (r, k) = next_running c h in
        progress_parsed c c' (parse_http_request to_lower c.buf) refl k;
    push-push = push_http-push;
    push-nil = push_http-nil;
  }

  start_done : (w : Locker) → round (start_http w) ≡ none
  unfolding next_request start_http parse_http_request cut_at
  start_done w = refl

  -- However the network cuts the same bytes into reads, a connection of the locker ends with the same
  -- responses, the same files and the same database.
  pub handle_connection_chunking :
      (xs ys : List Bytes) (w : Locker)
      → flatten xs ≡ flatten ys
      → handle_connection to_lower e xs w ≡ handle_connection to_lower e ys w
  unfolding handle_connection receive_requests
  handle_connection_chunking xs ys w h =
      rw (receive_all_with_chunking _ _ _ requests xs ys (start_http w) (start_done w) h)
