-- ===== src/Fesl/Rank/Update/Owner.antt =====
-- server/fesl/rank.go: whose statistics `UpdateStats` changes.
use medge_net.Prelude.{
  ℕ, zero, suc, ◌≡◌, refl, ◌∙◌, true, not, List, [], ◌∷◌, Bytes, inl, inr, Bool-cases, arith,
}
use medge_net.Prelude.Int.{ℤ, ◌==ℤ◌, ==ℤ_refl}
use medge_net.Env.{Env}
use medge_net.Exec.{Run, ◌>>=◌}
use medge_net.Exec.Keeps.{Keeps, keeps_rules, Keeps-bind}
use medge_net.Float.{Float64, is_nan}
use medge_net.Packet.{Packet, Params}
use medge_net.Store.{StatRow, Store, select, put}
use medge_net.Store.Rules.{Keeps-stmt}
use medge_net.Store.Stats.{Values, upsert_stat, update_stats, is_stat}
use medge_net.Fesl.Rank.Update.{
  update_periods, update_one, update_values, update_owners, handle_update_stats,
}
use medge_net.Fesl.Session.{Session, World, current, on_store}

-- The statistics of all personas but one.
unfoldable pub other_stats : ℤ → List StatRow → List StatRow
other_stats me = select (λ r. not (r.persona_id ==ℤ me))

-- A row of `me` that is put in, in place of another of `me`.
put_own :
    (me : ℤ) (key : Bytes) (period_id : ℤ) (row : StatRow) (rows : List StatRow)
    → (row.persona_id ==ℤ me) ≡ true
    → other_stats me (put (is_stat me key period_id) row rows) ≡ other_stats me rows
unfolding other_stats select put
put_own me key period_id row [] e = rw e
put_own me key period_id row (r ∷ rows) e = elim (Bool-cases (is_stat me key period_id r)) [
  | inl h ↦ let own : (r.persona_id ==ℤ me) ≡ true = ground arith in rw (h, e, own) refl
  | inr h ↦ rw (h, put_own me key period_id row rows e) refl
]

module _ (env : Env) (me : ℤ) (before : List StatRow) where
  abbrev Untouched : Store → Type 0
  Untouched s = other_stats me s.stats ≡ before

  upsert_lem :
      (key : Bytes) (value : Float64) (period_id : ℤ)
      → Keeps Untouched (upsert_stat env me key value period_id)
  unfolding upsert_stat
  upsert_lem key value period_id = record {
    at = λ s h. elim (Bool-cases (is_nan value)) [
      | inl e ↦ rw e h
      | inr e ↦ rw e (put_own me key period_id _ s.stats (==ℤ_refl me) ∙ h)
    ];
  }

  update_stats_lem :
      (values : Values) (period_id : ℤ) → Keeps Untouched (update_stats env me values period_id)
  unfolding update_stats
  update_stats_lem [] period_id = search keeps_rules
  update_stats_lem (v ∷ vs) period_id =
      Keeps-bind _ _ (Keeps-stmt env _ (λ s n h. h) (upsert_lem v.key v.value period_id))
        (λ _. update_stats_lem vs period_id)

  update_periods_lem :
      (key : Bytes) (value : Float64) (periods : List ℤ)
      → Keeps Untouched (update_periods env me key value periods)
  unfolding update_periods
  update_periods_lem key value [] = search keeps_rules
  update_periods_lem key value (p ∷ ps) =
      Keeps-bind _ _ (update_stats_lem _ p) (λ _. update_periods_lem key value ps)

module _ (env : Env) (session : Session) (before : List StatRow) where
  -- The session is still the same, and so are the statistics of the others.
  abbrev Guarded : World → Type 0
  Guarded w = (w.session ≡ session) × (other_stats session.persona_id w.store.stats ≡ before)

  same_session {ℓ} :
      {A : Type ℓ} (next : Session → Run World A) (found : Session) (w : World)
      → found ≡ session
      → Guarded (next session w).1
      → Guarded (next found w).1
  same_session next found w e h = rw e h

  current_lem {ℓ} :
      {A : Type ℓ} (next : Session → Run World A)
      → Keeps Guarded (next session)
      → Keeps Guarded (current >>= next)
  unfolding current ◌>>=◌
  current_lem next h = record { at = λ w g. same_session next w.session w g.0 (h.at w g) }

  on_store_lem {ℓ} :
      {A : Type ℓ} (m : Run Store A)
      → Keeps (Untouched env session.persona_id before) m
      → Keeps Guarded (on_store m)
  unfolding on_store
  on_store_lem m h = record { at = λ w g. (g.0, h.at w.store g.1) }

  update_one_lem : (p : Params) (oi si : ℕ) → Keeps Guarded (update_one env p oi si)
  unfolding update_one
  update_one_lem p oi si =
      search
        (keeps_rules, current_lem, on_store_lem, update_periods_lem env session.persona_id before)

  update_values_lem : (p : Params) (oi left si : ℕ) → Keeps Guarded (update_values env p oi left si)
  unfolding update_values
  update_values_lem p oi zero si = search keeps_rules
  update_values_lem p oi (suc left) si =
      search (keeps_rules, update_one_lem, update_values_lem p oi left)

  update_owners_lem : (p : Params) (left oi : ℕ) → Keeps Guarded (update_owners env p left oi)
  unfolding update_owners
  update_owners_lem p zero oi = search keeps_rules
  update_owners_lem p (suc left) oi =
      search (keeps_rules, update_values_lem, update_owners_lem p left)

  handle_update_stats_lem : (pkt : Packet) → Keeps Guarded (handle_update_stats env pkt)
  unfolding handle_update_stats
  handle_update_stats_lem pkt = search (keeps_rules, update_owners_lem)

-- UpdateStats changes no statistics but those of the session's persona, whatever owners the request
-- counts and whatever statements fail, and it leaves the session as it was.
pub handle_update_stats-others :
    (env : Env) (pkt : Packet) (w : World)
    → ((handle_update_stats env pkt w).1.session ≡ w.session)
      × (other_stats w.session.persona_id (handle_update_stats env pkt w).1.store.stats
          ≡ other_stats w.session.persona_id w.store.stats)
handle_update_stats-others env pkt w =
    (handle_update_stats_lem env w.session (other_stats w.session.persona_id w.store.stats) pkt).at
      w (refl, refl)
