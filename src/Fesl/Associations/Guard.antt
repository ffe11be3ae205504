-- ===== src/Fesl/Associations/Guard.antt =====
-- server/fesl/associations.go: what `validateAssociationRequest` lets through.
use medge_net.Prelude.{
  ◌+◌, ◌≡◌, ◌≢◌, refl, Bool, true, false, not, ◌&&◌, String, inl, inr, Bool-cases, arith,
  if◌then◌else◌,
}
use medge_net.Prelude.Int.{ℤ, pos, ◌==ℤ◌, ==ℤ_iff}
use medge_net.Env.{Env}
use medge_net.Exec.{ok, Run, pure, ◌>>=◌}
use medge_net.Store.{stmt, find, is_some}
use medge_net.Store.Personas.{persona_exists, has_id}
use medge_net.Fesl.Session.{World, on_store, current, is_zero}
use medge_net.Store.Historical.{is_historical_owner}
use medge_net.Fesl.Associations.{
  AssociationRequest, Verdict, allowed, refused, check_exists, validate_association_request,
}

-- The rules for a request that is let through.
pub record IsAllowed (w : World) (req : AssociationRequest) (reject_self : Bool) : Type 0 where
  pub owner : req.owner_id ≢ pos 0
  pub member : req.member_id ≢ pos 0
  pub distinct : reject_self ≡ true → req.owner_id ≢ req.member_id
  pub owner_plain : is_historical_owner req.owner_id ≡ false
  pub member_plain : is_historical_owner req.member_id ≡ false
  pub own : w.session.persona_id ≢ pos 0 → req.owner_id ≡ w.session.persona_id
  pub owner_stored : is_some (find (has_id req.owner_id) w.store.personas) ≡ true
  pub member_stored : is_some (find (has_id req.member_id) w.store.personas) ≡ true

-- One test of the chain was passed.
passes :
    (c : Bool) (reason : String) (rest : Run World Verdict) (w : World)
    → ((if c then pure (refused reason) else rest) w).0 ≡ ok allowed
    → (c ≡ false) × ((rest w).0 ≡ ok allowed)
unfolding ◌>>=◌
passes true reason rest w h = ground arith
passes false reason rest w h = (refl, h)

not-false : (b : Bool) → not b ≡ false → b ≡ true
not-false b h = ground arith

abbrev ticked : World → World
ticked w = record w { store = record w.store { ticks = w.store.ticks + 1 } }

module _ (env : Env) where
  stored_by :
      (id : ℤ) (rest : Bool → Run World Verdict) (w : World)
      → ((on_store (persona_exists env id) >>= rest) w).0 ≡ ok allowed
      → (rest (is_some (find (has_id id) w.store.personas)) (ticked w)).0 ≡ ok allowed
  unfolding ◌>>=◌ on_store persona_exists stmt
  stored_by id rest w h = elim (Bool-cases (env.fault w.store.ticks)) [
    | inl e ↦ ground arith
    | inr e ↦ rw e at h
  ]

  check_exists-allowed :
      (req : AssociationRequest) (w : World)
      → (check_exists env req w).0 ≡ ok allowed
      → (is_some (find (has_id req.owner_id) w.store.personas) ≡ true)
        × (is_some (find (has_id req.member_id) w.store.personas) ≡ true)
  unfolding check_exists
  check_exists-allowed req w h =
      let (owner, h1) =
        passes (not (is_some (find (has_id req.owner_id) w.store.personas))) _ _ (ticked w)
          (stored_by req.owner_id _ w h) in
      let (member, h2) =
        passes (not (is_some (find (has_id req.member_id) w.store.personas))) _ _
          (ticked (ticked w)) (stored_by req.member_id _ (ticked w) h1) in
      (not-false _ owner, not-false _ member)

  -- A request that `validateAssociationRequest` lets through has an owner and a member, both stored
  -- and neither of them historical, the member is not the owner where that is asked for, and once a
  -- persona is logged in it is the owner.
  pub validate_association_request-IsAllowed :
      (req : AssociationRequest) (reject_self : Bool) (w : World)
      → (validate_association_request env req reject_self w).0 ≡ ok allowed
      → IsAllowed w req reject_self
  unfolding validate_association_request ◌>>=◌ current
  validate_association_request-IsAllowed req reject_self w h =
      let (owner, h1) = passes (is_zero req.owner_id) _ _ w h in
      let (member, h2) = passes (is_zero req.member_id) _ _ w h1 in
      let (distinct, h3) = passes (reject_self && req.owner_id ==ℤ req.member_id) _ _ w h2 in
      let (owner_plain, h4) = passes (is_historical_owner req.owner_id) _ _ w h3 in
      let (member_plain, h5) = passes (is_historical_owner req.member_id) _ _ w h4 in
      let (own, h6) =
        passes (not (is_zero w.session.persona_id) && not (req.owner_id ==ℤ w.session.persona_id)) _
          (check_exists env req) w h5 in
      let (owner_stored, member_stored) = check_exists-allowed req w h6 in
      record {
        owner = ground (arith, ==ℤ_iff req.owner_id (pos 0));
        member = ground (arith, ==ℤ_iff req.member_id (pos 0));
        distinct = ground (arith, ==ℤ_iff req.owner_id req.member_id);
        owner_plain = owner_plain;
        member_plain = member_plain;
        own = ground (
          arith,
          ==ℤ_iff w.session.persona_id (pos 0),
          ==ℤ_iff req.owner_id w.session.persona_id,
        );
        owner_stored = owner_stored;
        member_stored = member_stored;
      }
