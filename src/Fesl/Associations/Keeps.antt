-- ===== src/Fesl/Associations/Keeps.antt =====
-- What the store's statements keep, the friend list handlers keep.
use medge_net.Prelude.{ℕ, zero, suc, ◌+◌, Bool, true, false, List, [], ◌∷◌, Bytes}
use medge_net.Prelude.Int.{ℤ}
use medge_net.Env.{Env}
use medge_net.Exec.{Run}
use medge_net.Exec.Keeps.{Keeps, Keeps-bind}
use medge_net.Packet.{Kv, Packet, Params}
use medge_net.Store.{Store}
use medge_net.Store.Calls
use medge_net.Store.Calls.{Kept}
use medge_net.Store.Friends.{insert_friend, delete_friend, add_association, delete_association}
use medge_net.Store.Rules.{Keeps-stmt}
use medge_net.Fesl.Associations.{
  AssociationRequest, Verdict, allowed, refused, Mutation, Progress, check_exists,
  validate_association_request, adding, deleting, mutate_if_allowed, handle_request, request_loop,
  emit_results, member_list, association_mutation_response, handle_add_associations,
  handle_delete_associations, handle_get_associations,
}
use medge_net.Fesl.Associations.Emit.{AssociationResult, emit_association_result}
use medge_net.Fesl.Session.Keeps.{OfStore, store_rules}

-- The two statements on `friends` keep `P` too.
pub record FriendsKept {κ} (P : Store → Type κ) : Type κ where
  pub insert_friend : (id friend_id : ℤ) (typ : Bytes) → Keeps P (insert_friend id friend_id typ)
  pub delete_friend : (id friend_id : ℤ) (typ : Bytes) → Keeps P (delete_friend id friend_id typ)

module _ {κ} {P : Store → Type κ} (env : Env) (k : Kept env P) where
  emit_association_result-Keeps :
      (p : Params) (prefix : Bytes) (i : ℕ) (r : AssociationResult) (typ : Bytes)
      → Keeps (OfStore P) (emit_association_result env p prefix i r typ)
  unfolding emit_association_result
  emit_association_result-Keeps p prefix i r typ =
      search (store_rules, Calls.get_associations-Keeps env k, Calls.persona_by_id-Keeps env k)
        depth 8

  emit_results-Keeps :
      (p : Params) (prefix typ : Bytes) (i : ℕ) (rs : List AssociationResult) (resp : List Kv)
      → Keeps (OfStore P) (emit_results env p prefix typ i rs resp)
  unfolding emit_results
  emit_results-Keeps p prefix typ i [] resp = search store_rules
  emit_results-Keeps p prefix typ i (r ∷ rs) resp =
      Keeps-bind _ _ (emit_association_result-Keeps p prefix i r typ)
        (λ lines. emit_results-Keeps p prefix typ (i + 1) rs _)

  member_list-Keeps : (id : ℤ) (typ : Bytes) → Keeps (OfStore P) (member_list env id typ)
  unfolding member_list
  member_list-Keeps id typ = search (store_rules, Calls.get_associations-Keeps env k)

  pub association_mutation_response-Keeps :
      (pkt : Packet) (txn prefix : Bytes) (p : Params) (typ : Bytes) (pr : Progress)
      → Keeps (OfStore P) (association_mutation_response env pkt txn prefix p typ pr)
  unfolding association_mutation_response
  association_mutation_response-Keeps pkt txn prefix p typ pr =
      search (store_rules, emit_results-Keeps, member_list-Keeps) depth 8

  pub handle_get_associations-Keeps :
      (pkt : Packet) → Keeps (OfStore P) (handle_get_associations env pkt)
  unfolding handle_get_associations
  handle_get_associations-Keeps pkt = search (store_rules, member_list-Keeps) depth 8

module _ {κ} {P : Store → Type κ} (env : Env) (k : Kept env P) (kf : FriendsKept P) where
  check_exists-Keeps : (req : AssociationRequest) → Keeps (OfStore P) (check_exists env req)
  unfolding check_exists
  check_exists-Keeps req = search (store_rules, Calls.persona_exists-Keeps env k) depth 8

  validate_association_request-Keeps :
      (req : AssociationRequest) (reject_self : Bool)
      → Keeps (OfStore P) (validate_association_request env req reject_self)
  unfolding validate_association_request
  validate_association_request-Keeps req reject_self =
      search (store_rules, check_exists-Keeps) depth 12

  adding-Keeps : (typ : Bytes) (req : AssociationRequest) → Keeps (OfStore P) (adding env typ req)
  unfolding adding add_association
  adding-Keeps typ req =
      search (store_rules, kf.insert_friend, λ (m : Run Store Bool). Keeps-stmt env m k.free) depth
        8

  deleting-Keeps :
      (typ : Bytes) (req : AssociationRequest) → Keeps (OfStore P) (deleting env typ req)
  unfolding deleting delete_association
  deleting-Keeps typ req =
      search (store_rules, kf.delete_friend, λ (m : Run Store (Unit {0})). Keeps-stmt env m k.free)
        depth 8

  module _ (mutation : Mutation)
      (km : (req : AssociationRequest) → Keeps (OfStore P) (mutation req)) where
    mutate_if_allowed-Keeps :
        (req : AssociationRequest) (v : Verdict)
        → Keeps (OfStore P) (mutate_if_allowed env mutation req v)
    unfolding mutate_if_allowed
    mutate_if_allowed-Keeps req allowed = km req
    mutate_if_allowed-Keeps req (refused _) = search store_rules

    handle_request-Keeps :
        (reject_self : Bool) (req : AssociationRequest)
        → Keeps (OfStore P) (handle_request env mutation reject_self req)
    unfolding handle_request
    handle_request-Keeps reject_self req =
        search (store_rules, validate_association_request-Keeps, mutate_if_allowed-Keeps)

    request_loop-Keeps :
        (reject_self : Bool) (prefix : Bytes) (p : Params) (left i : ℕ) (pr : Progress)
        → Keeps (OfStore P) (request_loop env mutation reject_self prefix p left i pr)
    unfolding request_loop
    request_loop-Keeps reject_self prefix p zero i pr = search store_rules
    request_loop-Keeps reject_self prefix p (suc left) i pr =
        search (store_rules, handle_request-Keeps, request_loop-Keeps reject_self prefix p left)

  pub handle_add_associations-Keeps :
      (pkt : Packet) → Keeps (OfStore P) (handle_add_associations env pkt)
  unfolding handle_add_associations
  handle_add_associations-Keeps pkt = search (
    store_rules,
    association_mutation_response-Keeps env k,
    λ (typ prefix : Bytes) (p : Params) (left : ℕ).
        request_loop-Keeps (adding env typ) (adding-Keeps typ) true prefix p left 0,
  )

  pub handle_delete_associations-Keeps :
      (pkt : Packet) → Keeps (OfStore P) (handle_delete_associations env pkt)
  unfolding handle_delete_associations
  handle_delete_associations-Keeps pkt = search (
    store_rules,
    association_mutation_response-Keeps env k,
    λ (typ prefix : Bytes) (p : Params) (left : ℕ).
        request_loop-Keeps (deleting env typ) (deleting-Keeps typ) false prefix p left 0,
  )
