-- ===== src/Fesl/Rank/Replies/Panics.antt =====
-- server/fesl/rank.go: when the handlers that read statistics end the process.
use medge_net.Prelude.{◌≡◌, ◌↔◌, ◌++◌, Bool, true, Bytes, codes}
use medge_net.Env.{Env}
use medge_net.Exec.{panic, Run}
use medge_net.Exec.Ends.{Ends}
use medge_net.Packet.{Packet, params_map, param}
use medge_net.Fesl.Rank.Closed
use medge_net.Fesl.Rank.Requests.{cannot_make}
use medge_net.Fesl.Session.{World, atoi}

-- The call ends the process exactly where `b` is true.
abbrev pub PanicsIff : Run World Bytes → Bool → World → Type 0
PanicsIff m b w = ((m w).0 ≡ panic) ↔ (b ≡ true)

-- `make` cannot allocate the keys, or the owners, that the request counts.
abbrev pub bad_keys : Env → Packet → Bool
bad_keys env pkt =
    cannot_make env 16 (atoi (param (params_map pkt.params) (codes "keys" ++ codes ".[]")))

abbrev pub bad_owners : Env → Packet → Bool
bad_owners env pkt = cannot_make env 24 (atoi (param (params_map pkt.params) (codes "owners.[]")))
