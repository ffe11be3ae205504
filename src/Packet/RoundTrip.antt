-- ===== src/Packet/RoundTrip.antt =====
-- `Decode` after `Encode`.
use medge_net.Prelude.{
  ℕ, ◌+◌, ◌^◌, ◌≤◌, ◌<◌, ◌≡◌, refl, ap, some, suc, List, [], ◌∷◌, ◌++◌, map, ◌*◌, ◌/◌, ◌%◌, Bytes,
  All, length, arith, length-append, append_assoc, take-length-append, drop-length-append,
  All-append, ◌∙◌,
}
use medge_net.Text.{split, trim_right}
use medge_net.Text.Lines.{Lacks, split-append, cut-append, trim_right-append, trim_right_padding}
use medge_net.Packet.{
  Kv, header_len, put_uint32, uint32, payload_lines, type_field, encode, parse_line, parse_lines,
  complete, decode, packet_of,
}

-- What one line of text can carry: no newline, and no `=` in the key.
abbrev pub IsLine : Kv → Type 0
IsLine p = Lacks b'=' p.key × Lacks b'\n' p.key × Lacks b'\n' p.value

-- A parameter as the receiver sees it: trailing zero bytes of a value are lost.
abbrev pub received : Kv → Kv
received p = record { key = p.key; value = trim_right 0 p.value }

abbrev pub encoded_len : List Kv → ℕ
encoded_len params = header_len + length (payload_lines params ++ 0 ∷ [])

parse_line_lem :
    (k v : Bytes)
    → Lacks b'=' k
    → parse_line (k ++ b'=' ∷ v) ≡ some (record { key = k; value = trim_right 0 v })
unfolding parse_line
parse_line_lem [] v h =
    rw (trim_right-append 0 [] b'=' v (omega arith), cut-append b'=' [] (trim_right 0 v) h)
parse_line_lem (c ∷ k) v h =
    rw
      (trim_right-append 0 (c ∷ k) b'=' v (omega arith), cut-append b'=' (c ∷ k) (trim_right 0 v) h)

parse_payload_step :
    (p : Kv) (rest : Bytes)
    → IsLine p
    → parse_lines (split b'\n' (p.key ++ (b'=' ∷ (p.value ++ (b'\n' ∷ rest)))))
      ≡ received p ∷ parse_lines (split b'\n' rest)
unfolding parse_lines
parse_payload_step p rest h = rw (← append_assoc p.key (b'=' ∷ p.value)) (
    rw
      (split-append b'\n' (p.key ++ b'=' ∷ p.value) rest
        (All-append _ p.key (b'=' ∷ p.value) h.1 (omega arith, h.2)))
      (rw (parse_line_lem p.key p.value h.0)))

parse_payload :
    (ps : List Kv)
    → All IsLine ps
    → parse_lines (split b'\n' (payload_lines ps ++ 0 ∷ [])) ≡ map received ps
unfolding payload_lines
parse_payload [] h = unfold parse_lines split parse_line trim_right in refl
parse_payload (p ∷ ps) h =
    rw (append_assoc p.key, append_assoc p.value)
      (parse_payload_step p _ h.0 ∙ ap (◌∷◌ (received p)) (parse_payload ps h.1))

decode_cells :
    (a b c d i0 i1 i2 i3 l0 l1 l2 l3 : ℕ) (payload rest : Bytes)
    → l0 * 2 ^ 24 + l1 * 2 ^ 16 + l2 * 2 ^ 8 + l3 ≡ header_len + length payload
    → decode (a ∷ b ∷ c ∷ d ∷ i0 ∷ i1 ∷ i2 ∷ i3 ∷ l0 ∷ l1 ∷ l2 ∷ l3 ∷ (payload ++ rest))
      ≡ complete
          (record {
            typ = trim_right 0 (a ∷ b ∷ c ∷ d ∷ []);
            id = i0 * 2 ^ 24 + i1 * 2 ^ 16 + i2 * 2 ^ 8 + i3;
            params = parse_lines (split b'\n' payload);
          })
          rest
unfolding decode uint32 packet_of
decode_cells a b c d i0 i1 i2 i3 l0 l1 l2 l3 payload rest e =
    let twelve : header_len + length payload
        ≡ suc (suc (suc (suc (suc (suc (suc (suc (suc (suc (suc (suc (length payload)))))))))))) =
      omega arith in
    rw (e, twelve, take-length-append, drop-length-append)
      (ground (arith, length-append payload rest))

decode_frame :
    (tf : Bytes) (id : ℕ) (payload rest : Bytes)
    → length tf ≡ 4
    → id < 2 ^ 32
    → header_len + length payload < 2 ^ 32
    → decode
        ((tf ++ (put_uint32 id ++ (put_uint32 (header_len + length payload) ++ payload))) ++ rest)
      ≡ complete
          (record { typ = trim_right 0 tf; id = id; params = parse_lines (split b'\n' payload) })
          rest
unfolding put_uint32
decode_frame (a ∷ b ∷ c ∷ d ∷ []) id payload rest e hid hlen =
    let n = header_len + length payload in
    let same : id / 2 ^ 24 % 256 * 2 ^ 24
          + id / 2 ^ 16 % 256 * 2 ^ 16
          + id / 2 ^ 8 % 256 * 2 ^ 8
          + id % 256
        ≡ id =
      omega arith in
    rw same at (
      decode_cells a b c d (id / 2 ^ 24 % 256) (id / 2 ^ 16 % 256) (id / 2 ^ 8 % 256) (id % 256)
        (n / 2 ^ 24 % 256) (n / 2 ^ 16 % 256) (n / 2 ^ 8 % 256) (n % 256) payload rest
        (omega arith))
decode_frame _ id payload rest e hid hlen = absurd (omega arith)

type_field_lem :
    (typ : Bytes)
    → length typ ≤ 4
    → (length (type_field typ) ≡ 4) × (trim_right 0 (type_field typ) ≡ trim_right 0 typ)
unfolding type_field
type_field_lem [] h = (refl, unfold trim_right in refl)
type_field_lem (a ∷ []) h = (refl, trim_right_padding 0 (a ∷ []) (0 ∷ 0 ∷ 0 ∷ []) (omega arith))
type_field_lem (a ∷ b ∷ []) h = (refl, trim_right_padding 0 (a ∷ b ∷ []) (0 ∷ 0 ∷ []) (omega arith))
type_field_lem (a ∷ b ∷ c ∷ []) h =
    (refl, trim_right_padding 0 (a ∷ b ∷ c ∷ []) (0 ∷ []) (omega arith))
type_field_lem (a ∷ b ∷ c ∷ d ∷ []) h = (refl, refl)
type_field_lem (a ∷ b ∷ c ∷ d ∷ e ∷ t) h = absurd (omega arith)

-- Decoding an encoded packet that stands in front of any bytes gives the type, the id and every
-- parameter back, in order, and leaves exactly those bytes. Trailing zero bytes of the type and of
-- the values are lost. Conditions: a type of at most four bytes, an id and a frame length below
-- 2^32, no newline in a key or value, no `=` in a key.
pub decode-encode :
    (typ : Bytes) (id : ℕ) (params : List Kv) (rest : Bytes)
    → length typ ≤ 4
    → id < 2 ^ 32
    → encoded_len params < 2 ^ 32
    → All IsLine params
    → decode (encode typ id params ++ rest)
      ≡ complete (record { typ = trim_right 0 typ; id = id; params = map received params }) rest
unfolding encode
decode-encode typ id params rest ht hid hlen hp =
    let (four, same) = type_field_lem typ ht in
    rw (
      decode_frame (type_field typ) id (payload_lines params ++ 0 ∷ []) rest four hid hlen,
      same,
      parse_payload params hp,
    )
