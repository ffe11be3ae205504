-- ===== src/Tests/Wire.antt =====
-- The wire formats: FESL packets, decimal numbers, hex.
use medge_net.Prelude.{
  ℕ, ◌≡◌, ◌+◌, ◌≤◌, refl, [], ◌∷◌, ◌++◌, map, Bytes, some, true, false, codes, length, arith, equal,
  if◌then◌else◌,
}
use medge_net.Prelude.Int.{pos, negsuc}
use medge_net.Packet.{
  Kv, Packet, header_len, encode, decode, type_field, put_uint32, payload_lines, packet_of, uint32,
  parse_lines, parse_line, bad_length, complete, params_map, param,
}
use medge_net.Packet.Maps.{param-params_map-snoc}
use medge_net.Packet.RoundTrip.{received, decode-encode}
use medge_net.Packet.Stream.{decode-append_bad_length, decode_progress}
use medge_net.Password.{hex_encode, hex_decode}
use medge_net.Password.Hex.{hex_decode-hex_encode}
use medge_net.Text.{split, cut, trim_right}
use medge_net.Text.Number.{parse_int, format_int}
use medge_net.Text.Number.RoundTrip.{parse_int-format_int}

abbrev hello_line : Kv
hello_line = record { key = codes "TXN"; value = codes "Hello" }

abbrev hello_bytes : Bytes
hello_bytes =
    b'f' ∷ b's' ∷ b'y' ∷ b's' ∷ 0 ∷ 0 ∷ 0 ∷ 1 ∷ 0 ∷ 0 ∷ 0 ∷ 23 ∷ b'T' ∷ b'X' ∷ b'N' ∷ b'=' ∷ b'H'
    ∷ b'e' ∷ b'l' ∷ b'l' ∷ b'o' ∷ 10 ∷ 0 ∷ []

abbrev hello : Packet
hello = record { typ = codes "fsys"; id = 1; params = hello_line ∷ [] }

encode_hello : encode (codes "fsys") 1 (hello_line ∷ []) ≡ hello_bytes
unfolding encode codes type_field put_uint32 payload_lines
encode_hello = refl

decode-hello : decode hello_bytes ≡ complete hello []
unfolding decode codes packet_of uint32 parse_lines parse_line split cut trim_right
decode-hello = refl

decode-encode_example :
    decode (encode (codes "fsys") 1 (hello_line ∷ []) ++ 7 ∷ [])
    ≡ complete
        (record {
          typ = trim_right 0 (codes "fsys");
          id = 1;
          params = map received (hello_line ∷ []);
        })
        (7 ∷ [])
unfolding codes payload_lines
decode-encode_example =
    decode-encode (codes "fsys") 1 (hello_line ∷ []) (7 ∷ []) (omega arith) (omega arith)
      (omega arith) (ground arith)

decode_progress_example : length {A = ℕ} [] + header_len ≤ length hello_bytes
decode_progress_example = decode_progress hello_bytes decode-hello

abbrev short_bytes : Bytes
short_bytes = 0 ∷ 0 ∷ 0 ∷ 0 ∷ 0 ∷ 0 ∷ 0 ∷ 0 ∷ 0 ∷ 0 ∷ 0 ∷ 5 ∷ []

decode_short : decode short_bytes ≡ bad_length
unfolding decode uint32
decode_short = refl

decode-append_bad_length_example : decode (short_bytes ++ hello_bytes) ≡ bad_length
decode-append_bad_length_example = decode-append_bad_length short_bytes hello_bytes decode_short

param-params_map-snoc_example :
    param
      (params_map (hello_line ∷ (record { key = codes "TXN"; value = codes "Ping" }) ∷ []))
      (codes "TXN")
    ≡ (if equal (codes "TXN") (codes "TXN")
        then codes "Ping"
        else param (params_map (hello_line ∷ [])) (codes "TXN"))
param-params_map-snoc_example =
    param-params_map-snoc (hello_line ∷ []) (codes "TXN") (codes "Ping") (codes "TXN")

parse_int-format_int_example : parse_int (format_int (negsuc 41)) ≡ (negsuc 41, true)
parse_int-format_int_example = parse_int-format_int (negsuc 41) (omega arith)

parse_int_clamped : parse_int (codes "99999999999999999999") ≡ (pos 9223372036854775807, false)
unfolding parse_int codes
parse_int_clamped = refl

hex_decode-hex_encode_example :
    hex_decode (hex_encode (0 ∷ 171 ∷ 255 ∷ [])) ≡ some (0 ∷ 171 ∷ 255 ∷ [])
hex_decode-hex_encode_example = hex_decode-hex_encode (0 ∷ 171 ∷ 255 ∷ []) (ground arith)
