-- ===== src/Packet/Stream.antt =====
-- `Decode` on a buffer that grows at its end.
use medge_net.Prelude.{
  ℕ, ◌+◌, ◌≤◌, ◌≡◌, refl, Bytes, ◌++◌, length, drop, arith, length-append, length-drop,
  take-append_of_le, drop-append_of_le, ◌∷◌,
}
use medge_net.Packet.{Packet, header_len, uint32, bad_length, complete, decode, packet_of}

uint32-length-append :
    (x y : Bytes) → header_len ≤ length x → uint32 (drop 8 (x ++ y)) ≡ uint32 (drop 8 x)
unfolding uint32
uint32-length-append (_ ∷ _ ∷ _ ∷ _ ∷ _ ∷ _ ∷ _ ∷ _ ∷ a ∷ b ∷ c ∷ d ∷ x) y h = refl
uint32-length-append _ y h = absurd (omega arith)

uint32_id-append :
    (x y : Bytes) → header_len ≤ length x → uint32 (drop 4 (x ++ y)) ≡ uint32 (drop 4 x)
unfolding uint32
uint32_id-append (_ ∷ _ ∷ _ ∷ _ ∷ a ∷ b ∷ c ∷ d ∷ x) y h = refl
uint32_id-append _ y h = absurd (omega arith)

packet_of-append :
    (n : ℕ) (x y : Bytes) → header_len ≤ n → n ≤ length x → packet_of n (x ++ y) ≡ packet_of n x
unfolding packet_of
packet_of-append n x y h k = rw (
  uint32_id-append x y (omega arith),
  take-append_of_le n x y k,
  take-append_of_le 4 x y (omega arith),
)

-- A packet that is complete in a buffer is decoded alike when more bytes have arrived behind it.
pub decode-append_complete :
    (x y : Bytes) {p : Packet} {r : Bytes}
    → decode x ≡ complete p r
    → decode (x ++ y) ≡ complete p (r ++ y)
unfolding decode
decode-append_complete x y h =
    let n = uint32 (drop 8 x) in
    ground (
      arith,
      uint32-length-append x y,
      length-append x y,
      packet_of-append n x y,
      drop-append_of_le n x y,
    )

-- A length field that is refused stays refused.
pub decode-append_bad_length : (x y : Bytes) → decode x ≡ bad_length → decode (x ++ y) ≡ bad_length
unfolding decode
decode-append_bad_length x y h = ground (arith, uint32-length-append x y, length-append x y)

-- A decoded packet takes at least its header from the buffer.
pub decode_progress :
    (x : Bytes) {p : Packet} {r : Bytes}
    → decode x ≡ complete p r
    → length r + header_len ≤ length x
unfolding decode
decode_progress x h = ground (arith, length-drop (uint32 (drop 8 x)) x)

-- A length is refused only once the whole header is there.
pub decode_bad_length : (x : Bytes) → decode x ≡ bad_length → header_len ≤ length x
unfolding decode
decode_bad_length x h = ground arith
