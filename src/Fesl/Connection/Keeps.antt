-- ===== src/Fesl/Connection/Keeps.antt =====
-- An invariant of the database holds after whatever a client sends.
use medge_net.Prelude.{
  ℕ, zero, suc, ◌≡◌, ◌≢◌, ap, arith, equal_iff, refl, List, [], ◌∷◌, Option, none, some, Bytes,
  Bool, true, false, inl, inr, Bool-cases, Option-cases,
}
use medge_net.Exec.{Outcome, ok, err, panic}
use medge_net.Exec.Keeps.{Keeps}
use medge_net.Packet.{Packet, Decoded, bad_length, incomplete, complete, decode}
use medge_net.Store.{Store, Friend, find}
use medge_net.Store.Friends.{insert_friend, delete_friend, is_row}
use medge_net.Store.Invariant.{IsValid, link}
use medge_net.Store.Invariant.Statements.{IsValid-Kept}
use medge_net.Store.Keys.{Distinct, Distinct-snoc, Distinct-select, find-eq-none}
use medge_net.Env.{Env}
use medge_net.Prelude.Int.{ℤ, ==ℤ_iff}
use medge_net.Fesl.Connection.{
  Conn, Event, bytes, timeout, end, after_dispatch, push, on_packet, on_decoded, next, receive,
  on_event, start, serve, is_memcheck,
}
use medge_net.Loop.{Status, running, closed, crashed, drain, receive_with}
use medge_net.Fesl.Dispatch.{Handler, dispatch, handlers}
use medge_net.Fesl.Session.Keeps.{OfStore}
use medge_net.Fesl.Associations.Keeps.{FriendsKept}
use medge_net.Fesl.Dispatch.Keeps.{handlers-Keeps, dispatch-Keeps}
use medge_net.Fesl.Session.{World}

abbrev Good {κ} : (World → Type κ) → Option Conn → Type κ
Good Q none = Unit
Good Q (some c) = Q c.world

module _ {κ} (Q : World → Type κ) (d : Handler) (kd : (pkt : Packet) → Keeps Q (d pkt)) where
  after_dispatch_lem :
      (pkt : Packet) (r : Outcome Bytes) (w : World) (c : Conn)
      → Q w
      → Q (after_dispatch pkt r w c).world
  unfolding after_dispatch
  after_dispatch_lem pkt (ok resp) w c h = h
  after_dispatch_lem pkt (err e) w c h = h
  after_dispatch_lem pkt panic w c h = h

  on_packet_lem :
      (pkt : Packet) (rest : Bytes) (c : Conn) → Q c.world → Q (on_packet d pkt rest c).world
  unfolding on_packet
  on_packet_lem pkt rest c h = elim (Bool-cases (is_memcheck pkt)) [
    | inl e ↦ rw e h
    | inr e ↦ rw e (after_dispatch_lem pkt _ _ _ ((kd pkt).at c.world h))
  ]

  on_decoded_lem : (x : Decoded) (c : Conn) → Q c.world → Good Q (on_decoded d x c)
  unfolding on_decoded
  on_decoded_lem bad_length c h = h
  on_decoded_lem incomplete c h = tt
  on_decoded_lem (complete pkt rest) c h = on_packet_lem pkt rest c h

  next_by :
      (st : Status) (buf : Bytes) (written : List Bytes) (w : World)
      → Q w
      → Good Q (next d (record { status = st; buf = buf; written = written; world = w }))
  unfolding next
  next_by running buf written w h = on_decoded_lem (decode buf) _ h
  next_by closed buf written w h = tt
  next_by crashed buf written w h = tt

  drain_lem : (n : ℕ) (c : Conn) → Q c.world → Q (drain (next d) n c).world
  unfolding drain
  drain_lem zero c h = h
  drain_lem (suc n) c h = elim (Option-cases (next d c)) [
    | inl e ↦ rw (e, drain) h
    | inr (c', e) ↦
        rw (e, drain) (drain_lem n c' (rw e at (next_by c.status c.buf c.written c.world h)))
  ]

  push_by :
      (st : Status) (y : Bytes) (c : Conn) → (push y (record c { status = st })).world ≡ c.world
  unfolding push
  push_by running y c = refl
  push_by closed y c = refl
  push_by crashed y c = refl

  timeout_by :
      (st : Status) (due : Bool) (c : Conn)
      → (on_event d (timeout due) (record c { status = st })).world ≡ c.world
  unfolding on_event
  timeout_by running true c = refl
  timeout_by running false c = refl
  timeout_by closed due c = refl
  timeout_by crashed due c = refl

  end_by : (st : Status) (c : Conn) → (on_event d end (record c { status = st })).world ≡ c.world
  unfolding on_event
  end_by running c = refl
  end_by closed c = refl
  end_by crashed c = refl

  on_event_lem : (e : Event) (c : Conn) → Q c.world → Q (on_event d e c).world
  unfolding on_event receive receive_with
  on_event_lem (bytes chunk) c h = drain_lem _ _ (rw (push_by c.status chunk c) h)
  on_event_lem (timeout due) c h = rw (timeout_by c.status due c) h
  on_event_lem end c h = rw (end_by c.status c) h

  -- What every handler keeps holds after any sequence of reads, timeouts and ends of a connection.
  serve-Keeps : (es : List Event) (c : Conn) → Q c.world → Q (serve d es c).world
  unfolding serve
  serve-Keeps [] c h = h
  serve-Keeps (e ∷ es) c h = serve-Keeps es (on_event d e c) (on_event_lem e c h)

-- With other friends, whose keys are unique.
IsValid-friends :
    (s : Store) (fs : List Friend)
    → Distinct link fs
    → IsValid s
    → IsValid (record s { friends = fs })
IsValid-friends s fs d v = record {
  account_ids = v.account_ids;
  nuids = v.nuids;
  persona_ids = v.persona_ids;
  names = v.names;
  hashes = v.hashes;
  links = d;
  tables = v.tables;
}

is_row-link :
    (id friend_id : ℤ) (typ : Bytes) (f : Friend)
    → is_row id friend_id typ f ≡ false
    → link f ≢ (id, (friend_id, typ))
is_row-link id friend_id typ f h e =
    let owner = ap (λ (k : ℤ × (ℤ × Bytes)). k.0) e in
    let friend = ap (λ (k : ℤ × (ℤ × Bytes)). k.1.0) e in
    let name = ap (λ (k : ℤ × (ℤ × Bytes)). k.1.1) e in
    ground (
      arith,
      ==ℤ_iff f.persona_id id,
      ==ℤ_iff f.friend_persona_id friend_id,
      equal_iff f.typ typ,
      owner,
      friend,
      name,
    )

insert_friend_lem :
    (id friend_id : ℤ) (typ : Bytes) (s : Store)
    → IsValid s
    → IsValid (insert_friend id friend_id typ s).1
unfolding insert_friend
insert_friend_lem id friend_id typ s v =
    elim (Option-cases (find (is_row id friend_id typ) s.friends)) [
      | inl e ↦ rw e (
          IsValid-friends s _
            (Distinct-snoc link s.friends _ v.links
              (find-eq-none (is_row id friend_id typ) s.friends (is_row-link id friend_id typ) e))
            v)
      | inr (f, e) ↦ rw e v
    ]

FriendsKept-IsValid : FriendsKept IsValid
unfolding delete_friend
FriendsKept-IsValid = record {
  insert_friend = λ id friend_id typ. record { at = insert_friend_lem id friend_id typ };
  delete_friend = λ id friend_id typ. record {
    at = λ s v. IsValid-friends s _ (Distinct-select link _ s.friends v.links) v;
  };
}

-- Whatever bytes a client sends, in whatever chunks, and whatever statements of the database fail,
-- the unique columns of the database stay unique: the ids and names of accounts and personas, the
-- hashes of login tokens, the rows of friend lists, the keys of statistics, and those of historical
-- players, runs and links.
pub serve-IsValid :
    (env : Env) (events : List Event) (w : World)
    → IsValid w.store
    → IsValid (serve (dispatch (handlers env)) events (start w)).world.store
unfolding start
serve-IsValid env events w v =
    let table = handlers-Keeps env (IsValid-Kept env) FriendsKept-IsValid in
    serve-Keeps (OfStore IsValid) (dispatch (handlers env))
      (λ pkt. dispatch-Keeps IsValid (handlers env) pkt table) events (start w) v
