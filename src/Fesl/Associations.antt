-- ===== src/Fesl/Associations.antt =====
-- server/fesl/associations.go: friend lists.
pub mod Emit
pub mod Guard
pub mod Keeps
pub mod Owner
use medge_net.Prelude.{
  ℕ, zero, suc, ◌+◌, Bool, true, false, not, ◌&&◌, ◌^◌, ◌≤◌, List, [], ◌∷◌, ◌++◌, map, Option, none,
  some, Bytes, String, codes, length, leb, if◌then◌else◌,
}
use medge_net.Prelude.Int.{ℤ, pos, negsuc, ◌==ℤ◌}
use medge_net.Env.{Env}
use medge_net.Exec.{Error, Outcome, ok, Run, pure, gets, ◌>>=◌, ◌>>◌}
use medge_net.Packet.{Kv, Packet, Params, params_map, param, encode}
use medge_net.Store.{Persona, Association}
use medge_net.Store.Historical.{is_historical_owner}
use medge_net.Store.Personas.{persona_exists}
use medge_net.Store.Friends.{get_associations, add_association, delete_association}
use medge_net.Fesl.Associations.Emit.{
  MemberRow, AssociationResult, member_row, base_association_response, emit_members,
  association_type, emit_association_result,
}
use medge_net.Fesl.Session.{
  Session, World, current, on_store, kv, kvs, field, atoi, times, is_zero, indexed, with_default,
}
use medge_net.Text.Number.{format_int, format_nat}

pub record AssociationRequest : Type 0 where
  pub request_index : ℕ
  pub owner_id : ℤ
  pub response_owner_id : ℤ
  pub owner_type : Bytes
  pub member_id : ℤ
  pub member_type : Bytes

-- The outcome of a request with the reason that is logged.
pub data Verdict : Type 0 where
  allowed : Verdict
  refused : String → Verdict

abbrev pub outcome_of : Verdict → Bytes
outcome_of allowed = codes "0"
outcome_of (refused _) = codes "1"

-- The owner that a request means: none given, or the account's own id, is the logged-in persona.
unfoldable pub normalize_association_owner_id : Session → ℤ → ℤ
normalize_association_owner_id s owner_id =
    if is_zero owner_id
    then s.persona_id
    else if not (is_zero s.persona_id) && not (is_zero s.account_id) && owner_id ==ℤ s.account_id
    then s.persona_id
    else owner_id

unfoldable pub parse_association_request : Session → Params → Bytes → ℕ → AssociationRequest
parse_association_request s p prefix index =
    let at = λ (name : String). param p (indexed (prefix ++ codes ".") index (codes name)) in
    let given = atoi (at ".owner.id") in
    let owner_id = normalize_association_owner_id s given in
    record {
      request_index = index;
      owner_id = owner_id;
      response_owner_id = if is_zero given then owner_id else given;
      owner_type = with_default (at ".owner.type") (codes "1");
      member_id = atoi (at ".member.id");
      member_type = with_default (at ".member.type") (codes "1");
    }

module _ (env : Env) where
  unfoldable pub check_exists : AssociationRequest → Run World Verdict
  check_exists req = do
    owner_exists ← on_store (persona_exists env req.owner_id)
    if not owner_exists then pure (refused "owner persona does not exist") else do
      member_exists ← on_store (persona_exists env req.member_id)
      if not member_exists then pure (refused "member persona does not exist") else pure allowed

  unfoldable pub validate_association_request : AssociationRequest → Bool → Run World Verdict
  unfolding check_exists
  validate_association_request req reject_self = do
    session ← current
    if is_zero req.owner_id
        then pure (refused "missing owner persona")
        else if is_zero req.member_id
        then pure (refused "missing member persona")
        else if reject_self && req.owner_id ==ℤ req.member_id
        then pure (refused "self association")
        else if is_historical_owner req.owner_id
        then pure (refused "historical owner persona")
        else if is_historical_owner req.member_id
        then pure (refused "historical member persona")
        else if not (is_zero session.persona_id) && not (req.owner_id ==ℤ session.persona_id)
        then pure (refused "owner does not match logged-in persona")
        else check_exists req

-- What the loop over the requests carries along.
pub record Progress : Type 0 where
  pub owner_id : ℤ
  pub response_owner_id : ℤ
  pub owner_type : Bytes
  pub results : List AssociationResult

abbrev pub no_progress : Progress
no_progress = record {
  owner_id = pos 0;
  response_owner_id = pos 0;
  owner_type = codes "1";
  results = [];
}

unfoldable pub with_result : Progress → AssociationRequest → Verdict → Progress
with_result pr req v = record {
  owner_id = req.owner_id;
  response_owner_id = req.response_owner_id;
  owner_type = req.owner_type;
  results =
      pr.results
      ++ (record {
        request_index = req.request_index;
        owner_id = req.owner_id;
        response_owner_id = req.response_owner_id;
        owner_type = req.owner_type;
        member_id = req.member_id;
        member_type = req.member_type;
        outcome = outcome_of v;
      })
        ∷ [];
}

-- What a handler does to the store for one request.
abbrev pub Mutation : Type 0
Mutation = AssociationRequest → Run World (Unit {0})

module _ (env : Env) where
  unfoldable pub adding : Bytes → Mutation
  adding assoc_type req = do
    on_store (add_association env req.owner_id req.member_id assoc_type)
    pure tt

  unfoldable pub deleting : Bytes → Mutation
  deleting assoc_type req = on_store (delete_association env req.owner_id req.member_id assoc_type)

  unfoldable pub mutate_if_allowed : Mutation → AssociationRequest → Verdict → Run World (Unit {0})
  mutate_if_allowed mutation req allowed = mutation req
  mutate_if_allowed mutation req (refused _) = pure tt

  -- One round of the loop.
  unfoldable pub handle_request : Mutation → Bool → AssociationRequest → Run World Verdict
  handle_request mutation reject_self req = do
    verdict ← validate_association_request env req reject_self
    mutate_if_allowed mutation req verdict
    pure verdict

  -- The loop: `left` requests from index `i` on.
  unfoldable pub request_loop :
      Mutation → Bool → Bytes → Params → ℕ → ℕ → Progress → Run World Progress
  request_loop mutation reject_self prefix p zero i pr = pure pr
  request_loop mutation reject_self prefix p (suc left) i pr = do
    session ← current
    let req = parse_association_request session p prefix i
    verdict ← handle_request mutation reject_self req
    request_loop mutation reject_self prefix p left (i + 1) (with_result pr req verdict)

  unfoldable pub emit_results :
      Params → Bytes → Bytes → ℕ → List AssociationResult → List Kv → Run World (List Kv)
  emit_results p prefix assoc_type i [] resp = pure resp
  emit_results p prefix assoc_type i (r ∷ rs) resp = do
    lines ← emit_association_result env p prefix i r assoc_type
    emit_results p prefix assoc_type (i + 1) rs (resp ++ lines)

  unfoldable pub member_list : ℤ → Bytes → Run World (List MemberRow)
  member_list owner_id assoc_type = if is_zero owner_id then pure [] else do
    associations ← on_store (get_associations env owner_id assoc_type)
    pure (map member_row associations)

  unfoldable pub association_mutation_response :
      Packet → Bytes → Bytes → Params → Bytes → Progress → Run World Bytes
  unfolding emit_results member_list
  association_mutation_response pkt txn prefix p assoc_type pr = do
    session ← current
    let owner_id = if is_zero pr.owner_id then session.persona_id else pr.owner_id
    let response_owner_id = if is_zero pr.response_owner_id then owner_id else pr.response_owner_id
    resp ← emit_results p prefix assoc_type 0 pr.results (
        base_association_response txn p assoc_type (format_int response_owner_id) pr.owner_type
        ++ kv (codes "result.[]") (format_nat (length pr.results)) ∷ [])
    members ← member_list owner_id assoc_type
    pure (encode (codes "asso") pkt.id (resp ++ emit_members members))

  unfoldable pub handle_add_associations : Packet → Run World Bytes
  handle_add_associations pkt = do
    let p = params_map pkt.params
    let assoc_type = association_type p
    let count = atoi (param p (codes "addRequests.[]"))
    pr ← request_loop (adding assoc_type) true (codes "addRequests") p (times count) 0 no_progress
    association_mutation_response pkt (codes "AddAssociations") (codes "addRequests") p assoc_type
        pr

  unfoldable pub handle_delete_associations : Packet → Run World Bytes
  handle_delete_associations pkt = do
    let p = params_map pkt.params
    let assoc_type = association_type p
    let count = atoi (param p (codes "deleteRequests.[]"))
    pr ←
        request_loop (deleting assoc_type) false (codes "deleteRequests") p (times count) 0
          no_progress
    association_mutation_response pkt (codes "DeleteAssociations") (codes "deleteRequests") p
        assoc_type pr

  unfoldable pub handle_get_associations : Packet → Run World Bytes
  unfolding member_list
  handle_get_associations pkt = do
    let p = params_map pkt.params
    let assoc_type = association_type p
    let owner_id = with_default (param p (codes "owner.id")) (codes "0")
    let owner_type = with_default (param p (codes "owner.type")) (codes "1")
    session ← current
    members ← member_list session.persona_id assoc_type
    pure (
        encode (codes "asso") pkt.id (
          base_association_response (codes "GetAssociations") p assoc_type owner_id owner_type
          ++ emit_members members))
