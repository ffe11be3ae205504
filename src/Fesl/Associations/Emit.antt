-- ===== src/Fesl/Associations/Emit.antt =====
-- server/fesl/associations.go: the parts of a reply about friend lists.
use medge_net.Prelude.{
  ℕ, ◌+◌, List, [], ◌∷◌, ◌++◌, Option, none, some, Bytes, String, codes, length,
}
use medge_net.Prelude.Int.{ℤ}
use medge_net.Env.{Env}
use medge_net.Exec.{Run, pure, ◌>>=◌}
use medge_net.Packet.{Kv, Params, param}
use medge_net.Store.{Persona, Association}
use medge_net.Store.Friends.{get_associations}
use medge_net.Store.Personas.{persona_by_id}
use medge_net.Fesl.Session.{World, on_store, kv, kvs, indexed, with_default}
use medge_net.Text.Number.{format_int, format_nat}

pub record MemberRow : Type 0 where
  pub id : ℤ
  pub name : Bytes
  pub typ : Bytes

pub record AssociationResult : Type 0 where
  pub request_index : ℕ
  pub owner_id : ℤ
  pub response_owner_id : ℤ
  pub owner_type : Bytes
  pub member_id : ℤ
  pub member_type : Bytes
  pub outcome : Bytes

abbrev pub member_row : Association → MemberRow
member_row a = record { id = a.id; name = a.name; typ = codes "1" }

unfoldable pub base_association_response : Bytes → Params → Bytes → Bytes → Bytes → List Kv
base_association_response txn p assoc_type owner_id owner_type = kvs (
    codes "TXN"
    ∷ txn
    ∷ codes "domainPartition.domain"
    ∷ with_default (param p (codes "domainPartition.domain")) (codes "eagames")
    ∷ codes "domainPartition.subDomain"
    ∷ with_default (param p (codes "domainPartition.subDomain")) (codes "takedown-pc")
    ∷ codes "owner.id"
    ∷ owner_id
    ∷ codes "owner.type"
    ∷ owner_type
    ∷ codes "type"
    ∷ assoc_type
    ∷ [])

member_lines : ℕ → List MemberRow → List Kv
member_lines i [] = []
member_lines i (m ∷ ms) =
    kv (indexed (codes "members.") i (codes ".id")) (format_int m.id)
    ∷ kv (indexed (codes "members.") i (codes ".name")) m.name
    ∷ kv (indexed (codes "members.") i (codes ".type")) (with_default m.typ (codes "1"))
    ∷ member_lines (i + 1) ms

-- What is appended to the reply.
unfoldable pub emit_members : List MemberRow → List Kv
unfolding member_lines
emit_members members =
    kv (codes "members.[]") (format_nat (length members)) ∷ member_lines 0 members

unfoldable pub association_type : Params → Bytes
association_type p = with_default (param p (codes "type")) (codes "PlasmaFriends")

abbrev name_of : Option Persona → Bytes
name_of none = []
name_of (some p) = p.name

-- The column's text goes through the driver before it is a string.
abbrev created_of : Env → Option Persona → Bytes
created_of env none = []
created_of env (some p) = env.scanned p.created_at

module _ (env : Env) where
  -- The lines of one result, after its three reads.
  unfoldable pub emit_association_result :
      Params → Bytes → ℕ → AssociationResult → Bytes → Run World (List Kv)
  emit_association_result p request_prefix result_index result assoc_type = do
    list ← on_store (get_associations env result.owner_id assoc_type)
    owner ← on_store (persona_by_id env result.owner_id)
    member ← on_store (persona_by_id env result.member_id)
    let at = λ (name : String). indexed (codes "result.") result_index (codes name)
    let mutual_flag =
        param p (indexed (request_prefix ++ codes ".") result.request_index (codes ".mutual"))
    pure (
        kv (at ".owner.id") (format_int result.response_owner_id)
        ∷ kv (at ".owner.type") result.owner_type
        ∷ kv (at ".owner.name") (name_of owner)
        ∷ kv (at ".owner.xuid") (format_int result.response_owner_id)
        ∷ kv (at ".member.id") (format_int result.member_id)
        ∷ kv (at ".member.type") result.member_type
        ∷ kv (at ".member.name") (name_of member)
        ∷ kv (at ".member.xuid") (format_int result.member_id)
        ∷ kv (at ".member.created") (created_of env member)
        ∷ kv (at ".member.modified") []
        ∷ kv (at ".mutual") (with_default mutual_flag (codes "0"))
        ∷ kv (at ".outcome") result.outcome
        ∷ kv (at ".listSize") (format_nat (length list))
        ∷ [])
