-- ===== src/Fesl/Connection/Chunks.antt =====
-- How the network cuts the byte stream makes no difference.
use medge_net.Prelude.{
  ◌≤◌, ◌<◌, ◌≡◌, refl, List, [], ◌++◌, none, some, Bytes, length, arith, append_assoc, append-nil,
}
use medge_net.Packet.{Packet, Decoded, bad_length, incomplete, complete, decode}
use medge_net.Packet.Stream.{
  decode-append_complete, decode-append_bad_length, decode_bad_length, decode_progress,
}
use medge_net.Fesl.Dispatch.{Handler}
use medge_net.Fesl.Session.{World}
use mathlib.Core.List.{flatten}
use medge_net.Loop.{running}
use medge_net.Loop.Chunks.{Stream, receive_with_done, receive_all_with_chunking}
use medge_net.Fesl.Connection.{Conn, push, on_packet, on_decoded, next, receive, receive_all, start}

module _ (dispatch : Handler) where
  push-on_packet :
      (y : Bytes) (p : Packet) (r : Bytes) (c : Conn)
      → c.status ≡ running
      → push y (on_packet dispatch p r c) ≡ on_packet dispatch p (r ++ y) c
  unfolding push on_packet
  push-on_packet y p r c h = ground arith

  on_packet-push :
      (y : Bytes) (p : Packet) (r : Bytes) (c : Conn)
      → on_packet dispatch p r (push y c) ≡ on_packet dispatch p r c
  unfolding push on_packet
  on_packet-push y p r c = ground arith

  next-push_decoded :
      (y : Bytes) (c c' : Conn) (d : Decoded)
      → c.status ≡ running
      → decode c.buf ≡ d
      → on_decoded dispatch d c ≡ some c'
      → next dispatch (push y c) ≡ some (push y c')
  unfolding next push
  next-push_decoded y c c' bad_length h e k = ground (arith, decode-append_bad_length c.buf y e)
  next-push_decoded y c c' incomplete h e k = cc
  next-push_decoded y c c' (complete p r) h e k = ground (
    arith,
    decode-append_complete c.buf y e,
    push-on_packet y p r c h,
    on_packet-push y p (r ++ y) c,
  )

  next_running :
      (c : Conn) {c' : Conn}
      → next dispatch c ≡ some c'
      → (c.status ≡ running) × (on_decoded dispatch (decode c.buf) c ≡ some c')
  unfolding next
  next_running c h = ground arith

  -- A round that can be made can be made when more bytes have arrived, with the same effect.
  next-push :
      (y : Bytes) (c c' : Conn)
      → next dispatch c ≡ some c'
      → next dispatch (push y c) ≡ some (push y c')
  next-push y c c' h =
      let (r, e) = next_running c h in next-push_decoded y c c' (decode c.buf) r refl e

  on_packet_buf :
      (p : Packet) (r : Bytes) (c : Conn) → length (on_packet dispatch p r c).buf ≤ length r
  unfolding on_packet
  on_packet_buf p r c = ground arith

  next_progress_decoded :
      (c c' : Conn) (d : Decoded)
      → decode c.buf ≡ d
      → on_decoded dispatch d c ≡ some c'
      → length c'.buf < length c.buf
  unfolding on_decoded
  next_progress_decoded c c' bad_length e k = ground (arith, decode_bad_length c.buf e)
  next_progress_decoded c c' incomplete e k = cc
  next_progress_decoded c c' (complete p r) e k =
      ground (arith, decode_progress c.buf e, on_packet_buf p r c)

  next_progress : (c c' : Conn) → next dispatch c ≡ some c' → length c'.buf < length c.buf
  next_progress c c' h =
      let (r, e) = next_running c h in next_progress_decoded c c' (decode c.buf) refl e

  push-push : (x y : Bytes) (c : Conn) → push y (push x c) ≡ push (x ++ y) c
  unfolding push
  push-push x y c = ground (arith, append_assoc c.buf x y)

  push-nil : (c : Conn) → push [] c ≡ c
  unfolding push
  push-nil c = ground (arith, append-nil c.buf)

  packets : Stream (next dispatch) (λ c. length c.buf) push
  packets = record {
    next-push = next-push;
    progress = next_progress;
    push-push = push-push;
    push-nil = push-nil;
  }

  -- After every read the inner loop has come to its own exit: the fuel is enough for any bytes.
  pub receive_done : (x : Bytes) (c : Conn) → next dispatch (receive dispatch x c) ≡ none
  unfolding receive
  receive_done = receive_with_done _ _ _ packets

  start_done : (w : World) → next dispatch (start w) ≡ none
  unfolding next start decode
  start_done w = refl

  -- However the network cuts the same bytes into reads, a new session ends with the same replies, the
  -- same session and database, and the same bytes kept for later.
  pub receive_all_chunking :
      (xs ys : List Bytes) (w : World)
      → flatten xs ≡ flatten ys
      → receive_all dispatch xs (start w) ≡ receive_all dispatch ys (start w)
  unfolding receive_all
  receive_all_chunking xs ys w =
      receive_all_with_chunking _ _ _ packets xs ys (start w) (start_done w)
