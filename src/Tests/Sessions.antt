-- ===== src/Tests/Sessions.antt =====
-- Whole connections.
use mathlib.Core.List.{flatten}
use medge_net.Prelude.{◌≡◌, ◌≢◌, refl, true, [], ◌∷◌, ◌++◌, none, Bytes, codes, arith}
use medge_net.Prelude.Int.{pos, ◌==ℤ◌}
use medge_net.Exec.{◌>>=◌}
use medge_net.Packet.{Packet}
use medge_net.Store.{empty_store, stmt, find}
use medge_net.Store.Personas.{persona_exists}
use medge_net.Store.Invariant.{IsValid}
use medge_net.Fesl.Session.{new_world, kv, current, on_store}
use medge_net.Fesl.Login.{handle_nu_login}
use medge_net.Fesl.Login.Persona.{handle_nu_login_persona-unchanged}
use medge_net.Fesl.Dispatch.{handlers, dispatch}
use medge_net.Fesl.Connection.{bytes, timeout, end, next, receive, receive_all, start, serve}
use medge_net.Fesl.Connection.Chunks.{receive_done, receive_all_chunking}
use medge_net.Fesl.Connection.Keeps.{serve-IsValid}
use medge_net.Store.Historical.{is_historical_owner}
use medge_net.Fesl.Associations.{
  AssociationRequest, validate_association_request, handle_add_associations,
  handle_delete_associations,
}
use medge_net.Fesl.Associations.Guard.{IsAllowed, validate_association_request-IsAllowed}
use medge_net.Fesl.Associations.Owner.{
  others, handle_add_associations-others, handle_delete_associations-others,
}
use medge_net.Tests.Samples.{calm_env, two_runners, faith_world}

abbrev hello_bytes : Bytes
hello_bytes =
    b'f' ∷ b's' ∷ b'y' ∷ b's' ∷ 0 ∷ 0 ∷ 0 ∷ 1 ∷ 0 ∷ 0 ∷ 0 ∷ 23 ∷ b'T' ∷ b'X' ∷ b'N' ∷ b'=' ∷ b'H'
    ∷ b'e' ∷ b'l' ∷ b'l' ∷ b'o' ∷ 10 ∷ 0 ∷ []

receive_done_example :
    next
      (dispatch (handlers calm_env))
      (receive (dispatch (handlers calm_env)) hello_bytes (start new_world))
    ≡ none
receive_done_example = receive_done (dispatch (handlers calm_env)) hello_bytes (start new_world)

receive_all_chunking_example :
    receive_all (dispatch (handlers calm_env)) (hello_bytes ∷ hello_bytes ∷ []) (start new_world)
    ≡ receive_all
        (dispatch (handlers calm_env))
        ((hello_bytes ++ hello_bytes) ∷ [])
        (start new_world)
unfolding flatten
receive_all_chunking_example =
    receive_all_chunking (dispatch (handlers calm_env)) (hello_bytes ∷ hello_bytes ∷ [])
      ((hello_bytes ++ hello_bytes) ∷ []) new_world refl

empty_store-IsValid : IsValid empty_store
empty_store-IsValid = record {
  account_ids = tt;
  nuids = tt;
  persona_ids = tt;
  names = tt;
  hashes = tt;
  links = tt;
  tables = record {
    stat_keys = tt;
    player_ids = tt;
    source_keys = tt;
    run_keys = tt;
    linked_keys = tt;
  };
}

serve-IsValid_example :
    IsValid
      (serve
        (dispatch (handlers calm_env))
        (bytes hello_bytes ∷ timeout true ∷ end ∷ [])
        (start new_world)).world.store
serve-IsValid_example =
    serve-IsValid calm_env (bytes hello_bytes ∷ timeout true ∷ end ∷ []) new_world
      empty_store-IsValid

-- A login on the connection on which Faith plays.
abbrev other_login : Packet
other_login = record {
  typ = codes "acct";
  id = 3;
  params =
      kv (codes "TXN") (codes "NuLogin")
      ∷ kv (codes "nuid") (codes "faith")
      ∷ kv (codes "password") (codes "x")
      ∷ [];
}

handle_nu_login_persona-unchanged_example :
    ((handle_nu_login calm_env other_login faith_world).1.session.persona_id ≡ pos 1)
    × ((handle_nu_login calm_env other_login faith_world).1.session.persona_name ≡ codes "Faith")
handle_nu_login_persona-unchanged_example =
    handle_nu_login_persona-unchanged calm_env other_login faith_world

-- A request for Kate's list.
abbrev add_for_kate : Packet
add_for_kate = record {
  typ = codes "asso";
  id = 1;
  params =
      kv (codes "TXN") (codes "AddAssociations")
      ∷ kv (codes "addRequests.[]") (codes "1")
      ∷ kv (codes "addRequests.0.owner.id") (codes "2")
      ∷ kv (codes "addRequests.0.member.id") (codes "1")
      ∷ [];
}

abbrev delete_for_kate : Packet
delete_for_kate = record {
  typ = codes "asso";
  id = 2;
  params =
      kv (codes "TXN") (codes "DeleteAssociations")
      ∷ kv (codes "deleteRequests.[]") (codes "1")
      ∷ kv (codes "deleteRequests.0.owner.id") (codes "2")
      ∷ kv (codes "deleteRequests.0.member.id") (codes "1")
      ∷ [];
}

one_is_not_zero : pos 1 ≢ pos 0
one_is_not_zero e = ground arith

handle_add_associations-others_example :
    others (pos 1) (handle_add_associations calm_env add_for_kate faith_world).1.store.friends
    ≡ others (pos 1) two_runners.friends
handle_add_associations-others_example =
    handle_add_associations-others calm_env add_for_kate faith_world one_is_not_zero

handle_delete_associations-others_example :
    others (pos 1) (handle_delete_associations calm_env delete_for_kate faith_world).1.store.friends
    ≡ others (pos 1) two_runners.friends
handle_delete_associations-others_example =
    handle_delete_associations-others calm_env delete_for_kate faith_world one_is_not_zero

abbrev faith_adds_kate : AssociationRequest
faith_adds_kate = record {
  request_index = 0;
  owner_id = pos 1;
  response_owner_id = pos 1;
  owner_type = codes "1";
  member_id = pos 2;
  member_type = codes "1";
}

validate_association_request-IsAllowed_example : IsAllowed faith_world faith_adds_kate true
unfolding validate_association_request ◌>>=◌ current ◌==ℤ◌ is_historical_owner on_store
    persona_exists stmt find
validate_association_request-IsAllowed_example =
    validate_association_request-IsAllowed calm_env faith_adds_kate true faith_world refl
