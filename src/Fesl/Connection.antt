-- ===== src/Fesl/Connection.antt =====
-- server/fesl/server.go: `Session.run`, the loop that reads a connection.
pub mod Chunks
pub mod Keeps
use medge_net.Prelude.{
  ℕ, zero, suc, ◌+◌, Bool, true, false, ◌&&◌, not, List, [], ◌∷◌, ◌++◌, Option, none, some, Bytes,
  codes, length, ltb, ◌==◌, equal, if◌then◌else◌,
}
use medge_net.Exec.{Outcome, ok, err, panic, Run}
use medge_net.Packet.{Packet, Decoded, bad_length, incomplete, complete, decode, encode}
use medge_net.Fesl.Dispatch.{Handler, handler_error_response}
use medge_net.Fesl.Session.{World, kvs, field}
use medge_net.Text.{is_empty}
use medge_net.Loop.{Status, running, closed, crashed, receive_with, receive_all_with}

-- The connection: the bytes not yet decoded (none when it is over), the packets written, and the
-- state that handlers change.
pub record Conn : Type 0 where
  pub status : Status
  pub buf : Bytes
  pub written : List Bytes
  pub world : World

unfoldable pub challenge : Bytes
challenge = encode (codes "fsys") 0x80000000 (
    kvs (
      codes "TXN"
      ∷ codes "MemCheck"
      ∷ codes "memcheck.[]"
      ∷ codes "0"
      ∷ codes "type"
      ∷ codes "0"
      ∷ codes "salt"
      ∷ codes "12345678"
      ∷ []))

unfoldable pub start : World → Conn
start w = record { status = running; buf = []; written = challenge ∷ []; world = w }

-- A reply with no bytes is not written.
write_reply : Bytes → List Bytes → List Bytes
write_reply resp written = if is_empty resp then written else written ++ resp ∷ []

abbrev pub is_memcheck : Packet → Bool
is_memcheck pkt = equal (field pkt "TXN") (codes "MemCheck") && pkt.id == 0x80000000

after_dispatch : Packet → Outcome Bytes → World → Conn → Conn
unfolding write_reply
after_dispatch pkt (ok resp) w c = record c { written = write_reply resp c.written; world = w }
after_dispatch pkt (err e) w c = record c {
  written = write_reply (handler_error_response pkt (field pkt "TXN")) c.written;
  world = w;
}
after_dispatch pkt panic w c = record c { status = crashed; buf = []; world = w }

-- `buf = append(buf, tmp[:n]...)`
unfoldable pub push : Bytes → Conn → Conn
push chunk c = elim c.status [
  | running ↦ record c { buf = c.buf ++ chunk }
  | closed ↦ c
  | crashed ↦ c
]

module _ (dispatch : Handler) where
  -- One packet, behind which `rest` stands in the buffer.
  unfoldable pub on_packet : Packet → Bytes → Conn → Conn
  unfolding after_dispatch
  on_packet pkt rest c =
      let c' = record c { buf = rest } in
      if is_memcheck pkt
      then c'
      else (let (r, w) = dispatch pkt c.world in after_dispatch pkt r w c')

  on_decoded : Decoded → Conn → Option Conn
  on_decoded bad_length c = some (record c { status = closed; buf = [] })
  on_decoded incomplete c = none
  on_decoded (complete pkt rest) c = some (on_packet pkt rest c)

  -- One round of the inner loop; `none` where the loop is left for the next read. A bad length ends
  -- the session.
  unfoldable pub next : Conn → Option Conn
  unfolding on_decoded
  next c = elim c.status [ running ↦ on_decoded (decode c.buf) c | closed ↦ none | crashed ↦ none ]

  -- Bytes that a read returned. A packet takes at least twelve bytes, so the fuel is enough.
  unfoldable pub receive : Bytes → Conn → Conn
  unfolding receive_with
  receive = receive_with next (λ c. length c.buf) push

  unfoldable pub receive_all : List Bytes → Conn → Conn
  unfolding receive_all_with
  receive_all = receive_all_with next (λ c. length c.buf) push

-- What a read of the connection gives: bytes, the timeout of half a second (with whether the memory
-- check is due), or the end or an error of the connection.
pub data Event : Type 0 where
  bytes : Bytes → Event
  timeout : Bool → Event
  end : Event

unfoldable pub on_event : Handler → Event → Conn → Conn
on_event dispatch (bytes chunk) c = receive dispatch chunk c
on_event dispatch (timeout due) c = elim c.status [
  | running ↦ if due then record c { written = c.written ++ challenge ∷ [] } else c
  | closed ↦ c
  | crashed ↦ c
]
on_event dispatch end c = elim c.status [
  | running ↦ record c { status = closed; buf = [] }
  | closed ↦ c
  | crashed ↦ c
]

-- The outer loop over the reads of a connection.
unfoldable pub serve : Handler → List Event → Conn → Conn
unfolding on_event
serve dispatch [] c = c
serve dispatch (e ∷ es) c = serve dispatch es (on_event dispatch e c)
