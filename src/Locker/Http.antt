-- ===== src/Locker/Http.antt =====
-- server/locker/server.go: HTTP requests in a byte stream, and responses.
pub mod Cut
pub mod Stream
use medge_net.Prelude.{
  ℕ, ◌+◌, ◌^◌, Bool, true, false, ◌&&◌, List, [], ◌∷◌, ◌++◌, Option, none, some, Bytes, codes, ltb,
  leb, ◌==◌, length, take, drop, if◌then◌else◌,
}
use medge_net.Prelude.Int.{ℤ, pos, negsuc}
use medge_net.Packet.{Params, set_param, param}
use medge_net.Text.{cons_head, cut, has_prefix, Option_map}
use medge_net.Text.Number.{parse_int, format_nat}
use medge_net.Text.Runes.{trim_space}

abbrev pub crlf : Bytes
crlf = 13 ∷ 10 ∷ []

-- "\r\n\r\n"
abbrev pub end_of_headers : Bytes
end_of_headers = 13 ∷ 10 ∷ 13 ∷ 10 ∷ []

-- `strings.Index` of a separator that is not empty, as what stands before and after it.
unfoldable pub cut_at : Bytes → Bytes → Option (Bytes × Bytes)
unfolding has_prefix Option_map
cut_at sep [] = none
cut_at sep (c ∷ s) =
    let later = cut_at sep s in
    if has_prefix (c ∷ s) sep
    then some ([], drop (length sep) (c ∷ s))
    else Option_map (λ (p : Bytes × Bytes). (c ∷ p.0, p.1)) later

-- `strings.Split` at "\r\n".
unfoldable pub split_crlf : Bytes → List Bytes
unfolding cons_head
split_crlf [] = [] ∷ []
split_crlf (c ∷ []) = (c ∷ []) ∷ []
split_crlf (c ∷ d ∷ s) =
    let later = split_crlf s in
    let next = split_crlf (d ∷ s) in if c == 13 && d == 10 then [] ∷ later else cons_head c next

pub record HttpRequest : Type 0 where
  pub method : Bytes
  pub path : Bytes
  pub headers : Params
  pub body : Bytes

-- What `parseHTTPRequest` does: no request yet, a request and the bytes behind it, or a panic of a
-- slice expression.
pub data HttpParse : Type 0 where
  waiting : HttpParse
  parsed : HttpRequest → Bytes → HttpParse
  slice_panic : HttpParse

-- `strings.SplitN(line, " ", 3)`, of which the first two parts are used.
before_space : Bytes × Bytes → Bytes
before_space (first, rest) = first

path_of : Option (Bytes × Bytes) → Bytes → Bytes
path_of none rest = rest
path_of (some (path, version)) rest = path

unfoldable pub request_line : Bytes → Option (Bytes × Bytes)
unfolding Option_map path_of
request_line line =
    Option_map (λ (p : Bytes × Bytes). (p.0, path_of (cut b' ' p.1) p.1)) (cut b' ' line)

-- The part of the input that belongs to the request once `header_end` is known. `int` has 64 bits, so
-- a large sum is negative.
unfoldable pub with_body : ℤ → ℕ → Bytes → Bytes → (Bytes → HttpRequest) → HttpParse
with_body (negsuc n) header_end input after build = slice_panic
with_body (pos n) header_end input after build =
    if leb (2 ^ 63) (header_end + n)
    then slice_panic
    else if ltb (length input) (header_end + n)
    then waiting
    else parsed (build (take n after)) (drop n after)

-- `strings.ToLower`.
module _ (to_lower : Bytes → Bytes) where
  add_header : Option (Bytes × Bytes) → Params → Params
  add_header none headers = headers
  add_header (some (k, v)) headers = set_param (to_lower (trim_space k)) (trim_space v) headers

  unfoldable pub parse_headers : List Bytes → Params → Params
  unfolding add_header
  parse_headers [] headers = headers
  parse_headers (line ∷ lines) headers = parse_headers lines (add_header (cut b':' line) headers)

  with_headers : Bytes → Bytes → Bytes → List Bytes → Option (Bytes × Bytes) → HttpParse
  with_headers input head after lines none = waiting
  with_headers input head after lines (some (method, path)) =
      let headers = parse_headers lines [] in
      with_body (parse_int (param headers (codes "content-length"))).0 (length head + 4) input after
        (λ body. record { method = method; path = path; headers = headers; body = body })

  with_lines : Bytes → Bytes → Bytes → List Bytes → HttpParse
  unfolding with_headers
  with_lines input head after [] = waiting
  with_lines input head after (first ∷ lines) =
      with_headers input head after lines (request_line first)

  parse_block : Bytes → Option (Bytes × Bytes) → HttpParse
  unfolding with_lines
  parse_block input none = waiting
  parse_block input (some (head, after)) = with_lines input head after (split_crlf head)

  unfoldable pub parse_http_request : Bytes → HttpParse
  unfolding parse_block
  parse_http_request input = parse_block input (cut_at end_of_headers input)

-- The reason phrase; "OK" for a code that has none.
unfoldable pub reason_of : ℕ → Bytes
reason_of code = if code == 404 then codes "Not Found" else codes "OK"

unfoldable pub build_http_response : ℕ → Bytes → Bytes → Bytes
build_http_response code body content_type =
    codes "HTTP/1.1 "
    ++ (format_nat code
        ++ (codes " "
            ++ (reason_of code
                ++ (crlf
                    ++ (codes "Content-Type: "
                        ++ (content_type
                            ++ (crlf
                                ++ (codes "Connection: keep-alive"
                                    ++ (crlf
                                        ++ (codes "Content-Length: "
                                            ++ (format_nat (length body)
                                                ++ (end_of_headers ++ body))))))))))))
