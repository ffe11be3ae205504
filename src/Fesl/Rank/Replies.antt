-- ===== src/Fesl/Rank/Replies.antt =====
-- server/fesl/rank.go: when the handlers that read statistics reply.
pub mod Panics
use medge_net.Prelude.{◌≡◌, ◌++◌, refl, false, Bytes, codes}
use medge_net.Env.{Env}
use medge_net.Exec.{◌>>=◌}
use medge_net.Exec.Closed.{Answers, Answers-Closed}
use medge_net.Packet.{Packet, params_map, param}
use medge_net.Store.Stats.Keeps.{NeverFails, Answers-Reading}
use medge_net.Fesl.Rank.{
  handle_get_stats, handle_get_ranked_stats, handle_get_stats_for_owners,
  handle_get_ranked_stats_for_owners,
}
use medge_net.Fesl.Rank.Closed
use medge_net.Fesl.Rank.Closed.{OnWorld}
use medge_net.Fesl.Rank.Requests.{cannot_make, parse_key_list, parse_owner_list}
use medge_net.Fesl.Rank.TopN.{handle_get_top_n_and_stats}
use medge_net.Fesl.Session.{atoi, current, on_store}

on_connection : OnWorld (λ A m. Answers A m) (λ A m. Answers A m)
unfolding current on_store
on_connection = record {
  run = Answers-Closed;
  on_store_lem = λ m h. record { at = λ w. h.at w.store };
  current_lem = record { at = λ w. (w.session, refl) };
}

-- Lists that `make` can allocate: `keys.[]` and `owners.[]` are neither negative nor too large.
abbrev pub KeysFit : Env → Packet → Type 0
KeysFit env pkt =
    cannot_make env 16 (atoi (param (params_map pkt.params) (codes "keys" ++ codes ".[]"))) ≡ false

abbrev pub OwnersFit : Env → Packet → Type 0
OwnersFit env pkt =
    cannot_make env 24 (atoi (param (params_map pkt.params) (codes "owners.[]"))) ≡ false

pub keys_answer :
    (env : Env) (pkt : Packet)
    → KeysFit env pkt
    → Answers _ (parse_key_list env (params_map pkt.params) (codes "keys"))
unfolding parse_key_list ◌>>=◌
keys_answer env pkt e = record { at = λ w. rw e (_, refl) }

pub owners_answer :
    (env : Env) (pkt : Packet)
    → OwnersFit env pkt
    → Answers _ (parse_owner_list env (params_map pkt.params))
unfolding parse_owner_list ◌>>=◌
owners_answer env pkt e = record { at = λ w. rw e (_, refl) }

-- Where no statement fails and `make` can allocate the keys that the request counts, GetStats,
-- GetRankedStats and GetTopNAndStats reply, whatever the session and the database hold.
pub handle_get_stats-Answers :
    (env : Env) (pkt : Packet)
    → NeverFails env
    → KeysFit env pkt
    → Answers Bytes (handle_get_stats env pkt)
      × Answers Bytes (handle_get_ranked_stats env pkt)
      × Answers Bytes (handle_get_top_n_and_stats env pkt)
handle_get_stats-Answers env pkt calm fit =
    let reading = Answers-Reading env calm in
    let keys = keys_answer env pkt fit in
    (
      Closed.handle_get_stats-Closed env reading on_connection pkt keys,
      Closed.handle_get_ranked_stats-Closed env reading on_connection pkt keys,
      Closed.handle_get_top_n_and_stats-Closed env reading on_connection pkt keys,
    )

-- Where no statement fails and `make` can allocate the owners and the keys that the request counts,
-- GetStatsForOwners and GetRankedStatsForOwners reply.
pub handle_get_stats_for_owners-Answers :
    (env : Env) (pkt : Packet)
    → NeverFails env
    → OwnersFit env pkt
    → KeysFit env pkt
    → Answers Bytes (handle_get_stats_for_owners env pkt)
      × Answers Bytes (handle_get_ranked_stats_for_owners env pkt)
handle_get_stats_for_owners-Answers env pkt calm fit keys_fit =
    let reading = Answers-Reading env calm in
    let owners = owners_answer env pkt fit in
    let keys = keys_answer env pkt keys_fit in
    (
      Closed.handle_get_stats_for_owners-Closed env reading on_connection pkt owners keys,
      Closed.handle_get_ranked_stats_for_owners-Closed env reading on_connection pkt owners keys,
    )
