-- ===== src/Fesl/Static.antt =====
-- server/fesl/server.go: the handlers whose replies depend on the configuration and the clock alone.
use medge_net.Prelude.{ℕ, ◌+◌, List, [], ◌∷◌, ◌++◌, Bytes, String, codes, length}
use medge_net.Env.{Env}
use medge_net.Packet.{Kv, Packet, encode}
use medge_net.Fesl.Session.{World, kv, kvs, indexed}
use medge_net.Exec.{Run, ok}
use medge_net.Text.Number.{format_nat}

abbrev txn_only : String → Bytes → Packet → Bytes
txn_only typ txn pkt = encode (codes typ) pkt.id (kvs (codes "TXN" ∷ txn ∷ []))

abbrev empty_list : String → Bytes → String → Packet → Bytes
empty_list typ txn key pkt =
    encode (codes typ) pkt.id (kvs (codes "TXN" ∷ txn ∷ codes key ∷ codes "0" ∷ []))

-- The logged client details are not part of the reply.
unfoldable pub handle_hello : Env → Packet → Run World Bytes
handle_hello env pkt w = (
  ok (
      encode (codes "fsys") pkt.id (
        kvs (
          codes "TXN"
          ∷ codes "Hello"
          ∷ codes "domainPartition.domain"
          ∷ codes "eagames"
          ∷ codes "domainPartition.subDomain"
          ∷ codes "takedown-pc"
          ∷ codes "curTime"
          ∷ env.cur_time w.store.ticks
          ∷ codes "activityTimeoutSecs"
          ∷ codes "3600"
          ∷ codes "messengerIp"
          ∷ codes "127.0.0.1"
          ∷ codes "messengerPort"
          ∷ codes "0"
          ∷ codes "theaterIp"
          ∷ codes "127.0.0.1"
          ∷ codes "theaterPort"
          ∷ codes "0"
          ∷ []))),
  w,
)

pub handle_get_locker_url : Env → Packet → Bytes
handle_get_locker_url env pkt =
    encode (codes "acct") pkt.id
      (kvs (codes "TXN" ∷ codes "GetLockerURL" ∷ codes "url" ∷ env.cfg.locker_url ∷ []))

pub handle_nu_suggest_personas : Packet → Bytes
handle_nu_suggest_personas = empty_list "acct" (codes "NuSuggestPersonas") "suggestedNames.[]"

pub handle_nu_get_entitlements : Packet → Bytes
handle_nu_get_entitlements = empty_list "acct" (codes "NuGetEntitlements") "entitlements.[]"

pub handle_nu_get_entitlement_count : Packet → Bytes
handle_nu_get_entitlement_count =
    empty_list "acct" (codes "NuGetEntitlementCount") "entitlementCount"

pub handle_game_spy_pre_auth : Packet → Bytes
handle_game_spy_pre_auth = txn_only "acct" (codes "GameSpyPreAuth")

record Country : Type 0 where
  iso : String
  desc : String
  age : String

abbrev country : String → String → String → Country
country iso desc age = record { iso = iso; desc = desc; age = age }

countries : List Country
countries =
    country "US" "United%20States" "13"
    ∷ country "GB" "United%20Kingdom" "13"
    ∷ country "CA" "Canada" "13"
    ∷ country "AU" "Australia" "15"
    ∷ country "DE" "Germany" "16"
    ∷ country "FR" "France" "15"
    ∷ country "ES" "Spain" "14"
    ∷ country "IT" "Italy" "14"
    ∷ country "NL" "Netherlands" "16"
    ∷ country "SE" "Sweden" "13"
    ∷ country "NO" "Norway" "15"
    ∷ country "DK" "Denmark" "13"
    ∷ country "FI" "Finland" "13"
    ∷ country "JP" "Japan" "13"
    ∷ country "BR" "Brazil" "13"
    ∷ country "MX" "Mexico" "13"
    ∷ country "PL" "Poland" "13"
    ∷ country "RU" "Russia" "14"
    ∷ country "KR" "South%20Korea" "14"
    ∷ country "NZ" "New%20Zealand" "13"
    ∷ country "AT" "Austria" "14"
    ∷ country "BE" "Belgium" "13"
    ∷ country "CH" "Switzerland" "13"
    ∷ country "IE" "Ireland" "13"
    ∷ country "PT" "Portugal" "13"
    ∷ country "CZ" "Czech%20Republic" "15"
    ∷ []

country_lines : ℕ → List Country → List Kv
country_lines i [] = []
country_lines i (c ∷ cs) =
    kv (indexed (codes "countryList.") i (codes ".ISOCode")) (codes c.iso)
    ∷ kv (indexed (codes "countryList.") i (codes ".description")) (codes c.desc)
    ∷ kv (indexed (codes "countryList.") i (codes ".registrationAgeLimit")) (codes c.age)
    ∷ country_lines (i + 1) cs

pub handle_get_country_list : Packet → Bytes
unfolding countries country_lines
handle_get_country_list pkt = encode (codes "acct") pkt.id (
    kvs (
      codes "TXN"
      ∷ codes "GetCountryList"
      ∷ codes "countryList.[]"
      ∷ format_nat (length countries)
      ∷ [])
    ++ country_lines 0 countries)

pub handle_nu_get_tos : Packet → Bytes
handle_nu_get_tos pkt = encode (codes "acct") pkt.id (
    kvs (
      codes "TXN"
      ∷ codes "NuGetTos"
      ∷ codes "tos"
      ∷ codes
          "MedgeNet%20-%20Terms%20of%20Service.%20This%20is%20an%20unofficial%20server%20for%20Mirror's%20Edge.%20It%20is%20not%20affiliated%20with%20or%20endorsed%20by%20Electronic%20Arts.%20Use%20the%20service%20respectfully."
      ∷ []))

pub handle_set_presence_status : Packet → Bytes
handle_set_presence_status = txn_only "pres" (codes "SetPresenceStatus")

pub handle_presence_subscribe : Packet → Bytes
handle_presence_subscribe = empty_list "pres" (codes "PresenceSubscribe") "responses.[]"

pub handle_modify_settings : Packet → Bytes
handle_modify_settings = txn_only "xmsg" (codes "ModifySettings")

pub handle_get_messages : Packet → Bytes
handle_get_messages = empty_list "xmsg" (codes "GetMessages") "messages.[]"
