-- ===== src/Fesl/Session.antt =====
-- server/fesl/server.go: a client's session and what all handlers share.
pub mod Keeps
use medge_net.Prelude.{
  ℕ, zero, suc, ◌+◌, Bool, true, false, List, [], ◌∷◌, ◌++◌, Bytes, String, codes, if◌then◌else◌,
}
use medge_net.Prelude.Int.{ℤ, pos, negsuc, ◌==ℤ◌}
use medge_net.Env.{Env}
use medge_net.Exec.{Outcome, ok, err, Run, pure, ◌>>=◌}
use medge_net.Packet.{Kv, Packet, Params, params_map, param, encode}
use medge_net.Password.{hex_encode}
use medge_net.Store.{Store, draw, empty_store}
use medge_net.Text.{is_empty}
use medge_net.Text.Number.{parse_int, format_int, format_nat}

-- The fields of `Session` that handlers read and write.
pub record Session : Type 0 where
  pub account_id : ℤ
  pub persona_id : ℤ
  pub persona_name : Bytes
  pub nuid : Bytes
  pub lkey : Bytes

abbrev pub new_session : Session
new_session = record {
  account_id = pos 0;
  persona_id = pos 0;
  persona_name = [];
  nuid = [];
  lkey = [];
}

-- A session and the database that it shares with the others.
pub record World : Type 0 where
  pub session : Session
  pub store : Store

abbrev pub new_world : World
new_world = record { session = new_session; store = empty_store }

-- A call of the store.
unfoldable pub on_store {ℓ} : {A : Type ℓ} → Run Store A → Run World A
on_store m w = let (r, s) = m w.store in (r, record w { store = s })

unfoldable pub set_session : Session → Run World (Unit {0})
set_session s w = (ok tt, record w { session = s })

unfoldable pub current : Run World Session
current w = (ok w.session, w)

abbrev pub kv : Bytes → Bytes → Kv
kv key value = record { key = key; value = value }

-- `kvs(values...)`: an odd last value is dropped.
unfoldable pub kvs : List Bytes → List Kv
kvs [] = []
kvs (key ∷ []) = []
kvs (key ∷ value ∷ rest) = kv key value ∷ kvs rest

-- `atoi`: the error is dropped, and the value is what ParseInt gives beside it.
unfoldable pub atoi : Bytes → ℤ
atoi value = (parse_int value).0

-- How often `for i := 0; i < count; i++` runs.
abbrev pub times : ℤ → ℕ
times (pos n) = n
times (negsuc n) = 0

abbrev pub is_zero : ℤ → Bool
is_zero n = n ==ℤ pos 0

unfoldable pub with_default : Bytes → Bytes → Bytes
with_default value fallback = if is_empty value then fallback else value

-- `p["name"]` of a packet.
abbrev pub field : Packet → String → Bytes
field pkt name = param (params_map pkt.params) (codes name)

-- A key such as `userInfo.3.userName`.
abbrev pub indexed : Bytes → ℕ → Bytes → Bytes
indexed prefix i suffix = prefix ++ (format_nat i ++ suffix)

abbrev pub error_code : Bytes → Bytes → List Kv
error_code txn code = kvs (codes "TXN" ∷ txn ∷ codes "errorCode" ∷ code ∷ [])

unfoldable pub random_hex : Env → ℕ → Run Store Bytes
random_hex env n = do buf ← draw env n; pure (hex_encode buf)
