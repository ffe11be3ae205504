-- ===== src/Fesl/Dispatch.antt =====
-- server/fesl/server.go: `dispatch`, over a table of handlers.
pub mod Keeps
use medge_net.Prelude.{
  List, [], ◌∷◌, Option, none, some, Bytes, String, codes, equal, if◌then◌else◌,
}
use medge_net.Env.{Env}
use medge_net.Exec.{Run, pure}
use medge_net.Packet.{Packet, encode}
use medge_net.Fesl.Associations.{
  handle_get_associations, handle_add_associations, handle_delete_associations,
}
use medge_net.Fesl.Login.{handle_nu_login, handle_nu_add_account}
use medge_net.Fesl.Personas.{
  handle_nu_get_personas, handle_nu_login_persona, handle_nu_add_persona,
  handle_nu_lookup_user_info,
}
use medge_net.Fesl.Rank.{
  handle_get_stats, handle_get_ranked_stats, handle_get_stats_for_owners,
  handle_get_ranked_stats_for_owners,
}
use medge_net.Fesl.Rank.TopN.{handle_get_top_n_and_stats}
use medge_net.Fesl.Rank.Update.{handle_update_stats}
use medge_net.Fesl.Session.{World, field, kvs, error_code}
use medge_net.Fesl.Static.{
  handle_hello, handle_get_locker_url, handle_nu_suggest_personas, handle_nu_get_entitlements,
  handle_nu_get_entitlement_count, handle_game_spy_pre_auth, handle_get_country_list,
  handle_nu_get_tos, handle_set_presence_status, handle_presence_subscribe, handle_modify_settings,
  handle_get_messages,
}
use medge_net.Text.{is_empty}

-- `type handler`
abbrev pub Handler : Type 0
Handler = Packet → Run World Bytes

-- A key of the handler map with its value.
pub record Route : Type 0 where
  pub txn : Bytes
  pub handler : Handler

abbrev pub route : String → Handler → Route
route txn h = record { txn = codes txn; handler = h }

abbrev static : (Packet → Bytes) → Handler
static f pkt = pure (f pkt)

unfoldable pub find_handler : Bytes → List Route → Option Handler
find_handler txn [] = none
find_handler txn (r ∷ rs) = if equal r.txn txn then some r.handler else find_handler txn rs

module _ (env : Env) where
  -- The handler map.
  unfoldable pub handlers : List Route
  handlers =
      route "Hello" (handle_hello env)
      ∷ route "NuLogin" (handle_nu_login env)
      ∷ route "Login" (handle_nu_login env)
      ∷ route "NuAddAccount" (handle_nu_add_account env)
      ∷ route "NuGetPersonas" (handle_nu_get_personas env)
      ∷ route "NuLoginPersona" (handle_nu_login_persona env)
      ∷ route "NuAddPersona" (handle_nu_add_persona env)
      ∷ route "NuSuggestPersonas" (static handle_nu_suggest_personas)
      ∷ route "NuGetEntitlements" (static handle_nu_get_entitlements)
      ∷ route "NuGetEntitlementCount" (static handle_nu_get_entitlement_count)
      ∷ route "GameSpyPreAuth" (static handle_game_spy_pre_auth)
      ∷ route "GetCountryList" (static handle_get_country_list)
      ∷ route "NuGetTos" (static handle_nu_get_tos)
      ∷ route "GetLockerURL" (static (handle_get_locker_url env))
      ∷ route "NuLookupUserInfo" (handle_nu_lookup_user_info env)
      ∷ route "GetAssociations" (handle_get_associations env)
      ∷ route "AddAssociations" (handle_add_associations env)
      ∷ route "DeleteAssociations" (handle_delete_associations env)
      ∷ route "SetPresenceStatus" (static handle_set_presence_status)
      ∷ route "PresenceSubscribe" (static handle_presence_subscribe)
      ∷ route "ModifySettings" (static handle_modify_settings)
      ∷ route "GetMessages" (static handle_get_messages)
      ∷ route "GetStats" (handle_get_stats env)
      ∷ route "GetRankedStats" (handle_get_ranked_stats env)
      ∷ route "GetStatsForOwners" (handle_get_stats_for_owners env)
      ∷ route "GetRankedStatsForOwners" (handle_get_ranked_stats_for_owners env)
      ∷ route "GetTopNAndStats" (handle_get_top_n_and_stats env)
      ∷ route "UpdateStats" (handle_update_stats env)
      ∷ route "SubmitStats" (handle_update_stats env)
      ∷ []

-- An unknown transaction is answered with its own name.
unfoldable pub run_handler : Packet → Bytes → Option Handler → Run World Bytes
run_handler pkt txn none = pure (encode pkt.typ pkt.id (kvs (codes "TXN" ∷ txn ∷ [])))
run_handler pkt txn (some h) = h pkt

unfoldable pub dispatch : List Route → Packet → Run World Bytes
unfolding run_handler
dispatch table pkt = run_handler pkt (field pkt "TXN") (find_handler (field pkt "TXN") table)

unfoldable pub handler_error_response : Packet → Bytes → Bytes
handler_error_response pkt txn =
    encode pkt.typ pkt.id (error_code (if is_empty txn then field pkt "TXN" else txn) (codes "1"))
