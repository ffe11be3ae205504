-- ===== src/Tests/Files.antt =====
-- The file locker.
use medge_net.Prelude.{◌≡◌, refl, [], ◌∷◌, ◌++◌, some, Bytes, All, codes, equal}
use medge_net.Prelude.Int.{pos}
use medge_net.Locker.Http.{
  HttpRequest, parsed, slice_panic, end_of_headers, cut_at, split_crlf, request_line, with_body,
  parse_headers, parse_http_request,
}
use medge_net.Packet.{set_param, param}
use medge_net.Text.{cut}
use medge_net.Text.Number.{parse_int}
use medge_net.Text.Runes.{trim_space}
use medge_net.Locker.Http.Stream.{parse_http_request-append, parse_http_request_bytes}
use medge_net.Locker.Xml.{Entry, attr}
use medge_net.Locker.Xml.Escape.{escape, Quotable, attr-escape, attr-Quotable}
use medge_net.Store.Stats.Stretches.{Tags}
use medge_net.Locker.Entries.{find_entry_by_name, with_stretch_aliases}
use medge_net.Locker.Entries.Aliases.{
  Unique, with_stretch_aliases-Unique, with_stretch_aliases_found,
}

-- `strings.ToLower` on upper-case ASCII letters is not needed here: the header is given in lower case.
abbrev same : Bytes → Bytes
same s = s

abbrev put_bytes : Bytes
put_bytes =
    codes "PUT /x HTTP/1.1"
    ++ (13 ∷ 10 ∷ (codes "content-length: 3" ++ (end_of_headers ++ codes "abcGET")))

abbrev put_request : HttpRequest
put_request = record {
  method = codes "PUT";
  path = codes "/x";
  headers = (record { key = codes "content-length"; value = codes "3" }) ∷ [];
  body = codes "abc";
}

parse_put : parse_http_request same put_bytes ≡ parsed put_request (codes "GET")
unfolding parse_http_request codes cut_at split_crlf request_line cut with_body parse_int param
    parse_headers set_param equal trim_space
parse_put = refl

-- A negative length.
parse_negative :
    parse_http_request same
      (codes "PUT /x HTTP/1.1" ++ (13 ∷ 10 ∷ (codes "content-length: -1" ++ end_of_headers)))
    ≡ slice_panic
unfolding parse_http_request codes cut_at split_crlf request_line cut with_body parse_int param
    parse_headers set_param equal trim_space
parse_negative = refl

parse_http_request-append_example :
    parse_http_request same (put_bytes ++ codes "!") ≡ parsed put_request (codes "GET" ++ codes "!")
parse_http_request-append_example =
    parse_http_request-append same put_bytes (codes "!") put_request (codes "GET") parse_put

parse_http_request_bytes_example :
    (head : Bytes) × (put_bytes ≡ head ++ (end_of_headers ++ (codes "abc" ++ codes "GET")))
parse_http_request_bytes_example =
    parse_http_request_bytes same put_bytes put_request (codes "GET") parse_put

attr-escape_example : attr (codes "a<&") ≡ escape (codes "a<&")
attr-escape_example = attr-escape (codes "a<&")

attr-Quotable_example : All Quotable (attr (codes "a<&"))
attr-Quotable_example = attr-Quotable (codes "a<&")

abbrev ghost : Entry
ghost = record {
  name = codes "tdttghost_7";
  desc = [];
  game = codes "MEPC";
  typ = [];
  idnt = [];
  date = pos 0;
  file_id = pos 9;
  attributes = pos 0;
  size = pos 100;
  locs = pos 0;
  perm = pos 0;
  vers = pos 0;
  path = codes "ghosts/Faith_tdttghost_7";
}

abbrev tags : Tags
tags = (pos 7, pos 3 ∷ pos 4 ∷ []) ∷ []

with_stretch_aliases-Unique_example : Unique (with_stretch_aliases tags (ghost ∷ []))
with_stretch_aliases-Unique_example = with_stretch_aliases-Unique tags (ghost ∷ []) (tt, tt)

with_stretch_aliases_found_example :
    find_entry_by_name (with_stretch_aliases tags (ghost ∷ [])) (codes "tdttghost_7") ≡ some ghost
unfolding find_entry_by_name equal codes
with_stretch_aliases_found_example =
    with_stretch_aliases_found tags (ghost ∷ []) (codes "tdttghost_7") ghost refl
