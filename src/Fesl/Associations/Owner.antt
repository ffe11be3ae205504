-- ===== src/Fesl/Associations/Owner.antt =====
-- server/fesl/associations.go: whose friend lists the handlers change.
use medge_net.Prelude.{
  ℕ, zero, suc, ◌≡◌, ◌≢◌, refl, Bool, true, false, not, List, [], ◌∷◌, ◌++◌, Bytes, inl, inr,
  Bool-cases, arith,
}
use medge_net.Prelude.Int.{ℤ, pos, ◌==ℤ◌, ==ℤ_refl}
use medge_net.Env.{Env}
use medge_net.Exec.{Outcome, ok, err, panic, Run, pure, ◌>>=◌, ◌>>◌, continue}
use medge_net.Exec.Keeps.{Keeps, keeps_rules, Keeps-pure, Keeps-bind, bind-weaken}
use medge_net.Packet.{Packet, Params}
use medge_net.Store.{Friend, Store, find, select, is_some}
use medge_net.Store.Keys.{select-select, select-snoc}
use medge_net.Store.Accounts.{has_nuid, insert_account, set_password}
use medge_net.Store.Tokens.{has_hash, insert_token, delete_tokens, touch_token}
use medge_net.Store.Personas.{has_name, persona_exists, insert_persona}
use medge_net.Store.Calls
use medge_net.Store.Calls.{Kept}
use medge_net.Store.Friends.{
  insert_friend, delete_friend, add_association, delete_association, is_row,
}
use medge_net.Float.{is_nan}
use medge_net.Store.Stats.{upsert_stat}
use medge_net.Store.Rules.{Keeps-stmt}
use medge_net.Fesl.Session.{World, on_store, current}
use medge_net.Fesl.Associations.{
  AssociationRequest, Verdict, allowed, refused, Mutation, Progress, check_exists,
  validate_association_request, adding, deleting, mutate_if_allowed, handle_request, request_loop,
  handle_add_associations, handle_delete_associations, association_mutation_response,
}
use medge_net.Fesl.Associations.Keeps.{association_mutation_response-Keeps}
use medge_net.Fesl.Associations.Guard.{validate_association_request-IsAllowed}

-- The rows of the lists of all personas but one.
unfoldable pub others : ℤ → List Friend → List Friend
others me = select (λ f. not (f.persona_id ==ℤ me))

-- A property of the friend lists alone: no statement on another table matters.
Kept-friends {κ} : (env : Env) (R : List Friend → Type κ) → Kept env (λ s. R s.friends)
unfolding insert_account set_password insert_token delete_tokens touch_token insert_persona
    upsert_stat
Kept-friends env R = record {
  free = λ s n h. h;
  insert_account = λ nuid password. record {
    at = λ s h. elim (Bool-cases (is_some (find (has_nuid nuid) s.accounts))) [
      | inl e ↦ rw e h
      | inr e ↦ rw e h
    ];
  };
  set_password = λ id password. record { at = λ s h. h };
  insert_token = λ hash id. record {
    at = λ s h. elim (Bool-cases (is_some (find (has_hash hash) s.login_tokens))) [
      | inl e ↦ rw e h
      | inr e ↦ rw e h
    ];
  };
  delete_tokens = λ id. record { at = λ s h. h };
  touch_token = λ hash. record { at = λ s h. h };
  insert_persona = λ id name. record {
    at = λ s h. elim (Bool-cases (is_some (find (has_name name) s.personas))) [
      | inl e ↦ rw e h
      | inr e ↦ rw e h
    ];
  };
  upsert_stat = λ id key value period_id. record {
    at = λ s h. elim (Bool-cases (is_nan value)) [ inl e ↦ rw e h | inr e ↦ rw e h ];
  };
}

-- The session's persona is `me`, and the friend lists of the others are `rows`.
abbrev Guarded : ℤ → List Friend → World → Type 0
Guarded me rows w = (w.session.persona_id ≡ me) × (others me w.store.friends ≡ rows)

module _ (env : Env) (me : ℤ) (rows : List Friend) where
  kept : Kept env (λ s. others me s.friends ≡ rows)
  kept = Kept-friends env (λ fs. others me fs ≡ rows)

  others-snoc :
      (friend_id : ℤ) (typ : Bytes) (fs : List Friend)
      → others me (fs ++ record { persona_id = me; friend_persona_id = friend_id; typ = typ } ∷ [])
        ≡ others me fs
  unfolding others
  others-snoc friend_id typ fs = select-snoc _ _ fs (rw (==ℤ_refl me))

  insert_lem :
      (friend_id : ℤ) (typ : Bytes)
      → Keeps (λ s. others me s.friends ≡ rows) (insert_friend me friend_id typ)
  unfolding insert_friend others
  insert_lem friend_id typ = record {
    at = λ s h. elim (Bool-cases (is_some (find (is_row me friend_id typ) s.friends))) [
      | inl e ↦ rw e h
      | inr e ↦ rw (e, others-snoc friend_id typ s.friends) h
    ];
  }

  delete_lem :
      (friend_id : ℤ) (typ : Bytes)
      → Keeps (λ s. others me s.friends ≡ rows) (delete_friend me friend_id typ)
  unfolding delete_friend others
  delete_lem friend_id typ = record {
    at = λ s h.
        rw
          (select-select (λ (f : Friend). not (f.persona_id ==ℤ me))
            (λ f. not (is_row me friend_id typ f)) s.friends (λ f e. ground arith))
          h;
  }

  Keeps-on_store {ℓ} :
      {A : Type ℓ} (m : Run Store A)
      → Keeps (λ s. others me s.friends ≡ rows) m
      → Keeps (Guarded me rows) (on_store m)
  unfolding on_store
  Keeps-on_store m h = record { at = λ w q. (q.0, h.at w.store q.1) }

  Keeps-current : Keeps (Guarded me rows) current
  unfolding current
  Keeps-current = record { at = λ w h. h }

  persona_exists_lem : (id : ℤ) → Keeps (Guarded me rows) (on_store (persona_exists env id))
  persona_exists_lem id = Keeps-on_store _ (Calls.persona_exists-Keeps env kept id)

  check_exists_lem : (req : AssociationRequest) → Keeps (Guarded me rows) (check_exists env req)
  unfolding check_exists
  check_exists_lem req = search (keeps_rules, persona_exists_lem) depth 8

  validate_lem :
      (req : AssociationRequest) (reject_self : Bool)
      → Keeps (Guarded me rows) (validate_association_request env req reject_self)
  unfolding validate_association_request
  validate_lem req reject_self = search (keeps_rules, Keeps-current, check_exists_lem) depth 12

  adding_lem :
      (typ : Bytes) (req : AssociationRequest)
      → req.owner_id ≡ me
      → Keeps (Guarded me rows) (adding env typ req)
  unfolding adding add_association
  adding_lem typ req e = rw e (
      Keeps-bind _ _ (Keeps-on_store _ (Keeps-stmt env _ kept.free (insert_lem req.member_id typ)))
        (λ _. Keeps-pure _))

  deleting_lem :
      (typ : Bytes) (req : AssociationRequest)
      → req.owner_id ≡ me
      → Keeps (Guarded me rows) (deleting env typ req)
  unfolding deleting delete_association
  deleting_lem typ req e =
      rw e (Keeps-on_store _ (Keeps-stmt env _ kept.free (delete_lem req.member_id typ)))

  -- The owner of a request that is let through is the logged-in persona.
  module _ (logged_in : me ≢ pos 0) (mutation : Mutation)
      (km : (req : AssociationRequest)
        → req.owner_id ≡ me
        → Keeps (Guarded me rows) (mutation req)) where
    continue_lem :
        (req : AssociationRequest) (reject_self : Bool) (r : Outcome Verdict) (w w' : World)
        → (validate_association_request env req reject_self w).0 ≡ r
        → Guarded me rows w
        → Guarded me rows w'
        → Guarded me rows (continue r (λ v. mutate_if_allowed env mutation req v >> pure v) w').1
    unfolding mutate_if_allowed
    continue_lem req reject_self (ok allowed) w w' e h h' =
        let valid = validate_association_request-IsAllowed env req reject_self w e in
        let own = rw h.0 at (valid.own (rw h.0 logged_in)) in
        (Keeps-bind _ _ (km req own) (λ _. Keeps-pure allowed)).at w' h'
    continue_lem req reject_self (ok (refused reason)) w w' e h h' =
        (Keeps-bind {P = Guarded me rows} _ _ (Keeps-pure (tt {0}))
            (λ _. Keeps-pure (refused reason))).at
          w' h'
    continue_lem req reject_self (err _) w w' e h h' = h'
    continue_lem req reject_self panic w w' e h h' = h'

    handle_request_lem :
        (reject_self : Bool) (req : AssociationRequest)
        → Keeps (Guarded me rows) (handle_request env mutation reject_self req)
    unfolding handle_request ◌>>=◌
    handle_request_lem reject_self req = record {
      at = λ w h. continue_lem req reject_self _ w _ refl h ((validate_lem req reject_self).at w h);
    }

    request_loop_lem :
        (reject_self : Bool) (prefix : Bytes) (p : Params) (left i : ℕ) (pr : Progress)
        → Keeps (Guarded me rows) (request_loop env mutation reject_self prefix p left i pr)
    unfolding request_loop
    request_loop_lem reject_self prefix p zero i pr = search keeps_rules
    request_loop_lem reject_self prefix p (suc left) i pr =
        search (
          keeps_rules,
          Keeps-current,
          handle_request_lem,
          request_loop_lem reject_self prefix p left,
        )

  response_lem :
      (pkt : Packet) (txn prefix : Bytes) (p : Params) (typ : Bytes) (pr : Progress)
      → Keeps
          (λ w. others me w.store.friends ≡ rows)
          (association_mutation_response env pkt txn prefix p typ pr)
  response_lem = association_mutation_response-Keeps env kept

-- Once a persona is logged in, AddAssociations changes no friend list but its own, whatever owners
-- the requests name and whatever statements fail.
pub handle_add_associations-others :
    (env : Env) (pkt : Packet) (w : World)
    → w.session.persona_id ≢ pos 0
    → others w.session.persona_id (handle_add_associations env pkt w).1.store.friends
      ≡ others w.session.persona_id w.store.friends
unfolding handle_add_associations
handle_add_associations-others env pkt w logged_in =
    let me = w.session.persona_id in
    let rows = others me w.store.friends in
    bind-weaken _ _
      (request_loop_lem env me rows logged_in _ (adding_lem env me rows _) true _ _ _ 0 _)
      (λ w' h. h.1) (response_lem env me rows pkt _ _ _ _) w (refl, refl)

-- Once a persona is logged in, DeleteAssociations changes no friend list but its own, whatever owners
-- the requests name and whatever statements fail.
pub handle_delete_associations-others :
    (env : Env) (pkt : Packet) (w : World)
    → w.session.persona_id ≢ pos 0
    → others w.session.persona_id (handle_delete_associations env pkt w).1.store.friends
      ≡ others w.session.persona_id w.store.friends
unfolding handle_delete_associations
handle_delete_associations-others env pkt w logged_in =
    let me = w.session.persona_id in
    let rows = others me w.store.friends in
    bind-weaken _ _
      (request_loop_lem env me rows logged_in _ (deleting_lem env me rows _) false _ _ _ 0 _)
      (λ w' h. h.1) (response_lem env me rows pkt _ _ _ _) w (refl, refl)
