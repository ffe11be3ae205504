-- ===== src/Packet.antt =====
-- server/fesl/packet.go: the FESL wire format.
pub mod RoundTrip
pub mod Stream
pub mod Maps
use medge_net.Prelude.{
  ℕ, ◌+◌, ◌*◌, ◌/◌, ◌%◌, ◌^◌, Bool, true, false, List, [], ◌∷◌, ◌++◌, Option, none, some, Bytes,
  length, take, drop, ltb, equal, if◌then◌else◌,
}
use medge_net.Text.{split, cut, trim_right, is_empty}

abbrev pub header_len : ℕ
header_len = 12

pub record Kv : Type 0 where
  pub key : Bytes
  pub value : Bytes

pub record Packet : Type 0 where
  pub typ : Bytes
  pub id : ℕ
  pub params : List Kv

-- `binary.BigEndian.PutUint32` of `uint32(n)`.
unfoldable pub put_uint32 : ℕ → Bytes
put_uint32 n = (n / 2 ^ 24 % 256) ∷ (n / 2 ^ 16 % 256) ∷ (n / 2 ^ 8 % 256) ∷ (n % 256) ∷ []

-- `binary.BigEndian.Uint32` of the first four bytes.
unfoldable pub uint32 : Bytes → ℕ
uint32 (a ∷ b ∷ c ∷ d ∷ _) = a * 2 ^ 24 + b * 2 ^ 16 + c * 2 ^ 8 + d
uint32 _ = 0

-- The loop that writes the payload's lines.
unfoldable pub payload_lines : List Kv → Bytes
payload_lines [] = []
payload_lines (p ∷ ps) = p.key ++ (b'=' ∷ (p.value ++ (b'\n' ∷ payload_lines ps)))

-- `copy(out[0:4], packetType)` into four zero bytes.
unfoldable pub type_field : Bytes → Bytes
type_field typ = take 4 (typ ++ 0 ∷ 0 ∷ 0 ∷ 0 ∷ [])

unfoldable pub encode : Bytes → ℕ → List Kv → Bytes
encode typ id params =
    let payload = payload_lines params ++ 0 ∷ [] in
    let total_len = header_len + length payload in
    type_field typ ++ (put_uint32 id ++ (put_uint32 total_len ++ payload))

-- One line of a payload: trailing zero bytes go, and what has no `=` is skipped.
unfoldable pub parse_line : Bytes → Option Kv
parse_line line =
    let trimmed = trim_right 0 line in
    if is_empty trimmed then none else elim (cut b'=' trimmed) [
      | none ↦ none
      | some (key, value) ↦ some (record { key = key; value = value })
    ]

append_param : Option Kv → List Kv → List Kv
append_param none rest = rest
append_param (some p) rest = p ∷ rest

unfoldable pub parse_lines : List Bytes → List Kv
unfolding append_param
parse_lines [] = []
parse_lines (l ∷ ls) = append_param (parse_line l) (parse_lines ls)

-- What `Decode` returns: an error, "not complete", or a packet and the bytes behind it.
pub data Decoded : Type 0 where
  bad_length : Decoded
  incomplete : Decoded
  complete : Packet → Bytes → Decoded

-- The packet of a frame of `total_len` bytes.
unfoldable pub packet_of : ℕ → Bytes → Packet
packet_of total_len bytes = record {
  typ = trim_right 0 (take 4 bytes);
  id = uint32 (drop 4 bytes);
  params = parse_lines (split b'\n' (drop 12 (take total_len bytes)));
}

unfoldable pub decode : Bytes → Decoded
decode bytes =
    let total_len = uint32 (drop 8 bytes) in
    if ltb (length bytes) header_len
    then incomplete
    else if ltb total_len header_len
    then bad_length
    else if ltb (length bytes) total_len
    then incomplete
    else complete (packet_of total_len bytes) (drop total_len bytes)

-- A Go `map[string]string`, one binding for each key.
abbrev pub Params : Type 0
Params = List Kv

unfoldable pub set_param : Bytes → Bytes → Params → Params
set_param key value [] = record { key = key; value = value } ∷ []
set_param key value (q ∷ qs) =
    if equal q.key key then record { key = key; value = value } ∷ qs else q ∷ set_param key value qs

set_params : List Kv → Params → Params
unfolding set_param
set_params [] out = out
set_params (p ∷ ps) out = set_params ps (set_param p.key p.value out)

unfoldable pub params_map : List Kv → Params
unfolding set_params
params_map params = set_params params []

-- `m[key]`: a missing key reads as the empty string.
unfoldable pub param : Params → Bytes → Bytes
param [] key = []
param (q ∷ qs) key = if equal q.key key then q.value else param qs key
