-- ===== src/Store/Stats/Updated.antt =====
-- What `UpdateStats` stores, `GetStats` reads.
use medge_net.Prelude.{
  ℕ, ◌+◌, ◌≡◌, ◌≢◌, refl, sym, ◌∙◌, Bool, true, false, ◌&&◌, ◌||◌, List, [], ◌∷◌, none, Bytes, All,
  equal, inl, inr, Bool-cases, arith,
}
use medge_net.Prelude.Int.{ℤ, pos, ◌==ℤ◌}
use medge_net.Calendar.{period_cutoff}
use medge_net.Env.{Env}
use medge_net.Exec.{ok, ◌>>=◌, ◌>>◌}
use medge_net.Float.{Float64, is_nan}
use medge_net.Store.{StatRow, Store, stmt, find, select, put}
use medge_net.Store.Invariant.{IsValid, stat_key}
use medge_net.Store.Keys.{Distinct}
use medge_net.Store.Invariant.Agree.{keys_agree, keys_differ}
use medge_net.Store.Stats.{
  update_stats, upsert_stat, get_stats, is_stat, stat_in, stored, stat_values, set_value,
  best_for_first, best_persona_id_for_keys, linked_historical_stats, keep_better,
}
use medge_net.Store.Stats.Scope.{is_time_key, mem, period_date_clause}
use medge_net.Store.Stats.Keeps.{NeverFails}
use medge_net.Text.{Option_map}

-- The rows that have the key of a row which was just put in: that row alone.
module _ {ℓ κ} {A : Type ℓ} {K : Type κ} (f : A → K) (p : A → Bool) (row : A) (own : p row ≡ true)
    (other : (x : A) → f x ≢ f row → p x ≡ false) (same : (x : A) → p x ≡ true → f x ≡ f row) where
  select-others : (xs : List A) → All (λ y. f row ≢ f y) xs → select p xs ≡ []
  unfolding select
  select-others [] h = refl
  select-others (x ∷ xs) h = rw (other x (λ e. h.0 (sym e)), select-others xs h.1) refl

  select-put : (xs : List A) → Distinct f xs → select p (put p row xs) ≡ row ∷ []
  unfolding select put
  select-put [] d = rw own refl
  select-put (x ∷ xs) d = elim (Bool-cases (p x)) [
    | inl e ↦ rw (e, own, select-others xs (rw (sym (same x e)) d.0)) refl
    | inr e ↦ rw (e, select-put xs d.1, e) refl
  ]

equal_sym : (s t : Bytes) → equal s t ≡ equal t s
unfolding equal
equal_sym [] [] = refl
equal_sym [] (y ∷ t) = refl
equal_sym (x ∷ s) [] = refl
equal_sym (x ∷ s) (y ∷ t) = ground (arith, equal_sym s t)

shuffle : (a b c : Bool) → (a && c && (b || false) && true) ≡ (a && b && c)
shuffle a b c = ground arith

-- The two tests on a row agree, for one key and a period without a first day.
stat_in_one :
    (id period_id : ℤ) (key : Bytes) (r : StatRow)
    → stat_in id period_id (key ∷ []) none r ≡ is_stat id key period_id r
unfolding mem
stat_in_one id period_id key r =
    rw (equal_sym key r.key)
      (shuffle (r.persona_id ==ℤ id) (equal r.key key) (r.period_id ==ℤ period_id))

select-cong {ℓ} :
    {A : Type ℓ} (p q : A → Bool) (xs : List A) → ((x : A) → p x ≡ q x) → select p xs ≡ select q xs
unfolding select
select-cong p q [] h = refl
select-cong p q (x ∷ xs) h = rw (h x, select-cong p q xs h) refl

put_stat_alone :
    (id period_id : ℤ) (key : Bytes) (row : StatRow) (rows : List StatRow)
    → stat_key row ≡ (id, (key, period_id))
    → Distinct stat_key rows
    → select (stat_in id period_id (key ∷ []) none) (put (is_stat id key period_id) row rows)
      ≡ row ∷ []
put_stat_alone id period_id key row rows e d =
    select-cong (stat_in id period_id (key ∷ []) none) (is_stat id key period_id) _
      (stat_in_one id period_id key)
    ∙ select-put stat_key (is_stat id key period_id) row (test_of row (e))
        (λ x n. elim (Bool-cases (is_stat id key period_id x)) [
          | inl h ↦ absurd (n (of_test x h ∙ sym e))
          | inr h ↦ h
        ])
        (λ x h. of_test x h ∙ sym e) rows d
  where
    of_test :
        (x : StatRow) → is_stat id key period_id x ≡ true → stat_key x ≡ (id, (key, period_id))
    of_test x h = keys_agree x.persona_id id x.key key x.period_id period_id h

    test_of :
        (x : StatRow) → stat_key x ≡ (id, (key, period_id)) → is_stat id key period_id x ≡ true
    test_of x h = elim (Bool-cases (is_stat id key period_id x)) [
      | inl t ↦ t
      | inr t ↦ absurd (keys_differ x.persona_id id x.key key x.period_id period_id t h)
    ]

or_true : (a : Bool) → (a || false || true) ≡ true
or_true a = ground arith

-- Where no statement fails, a value that is a number and whose key is not that of a time is read back
-- after it was stored, for a period that has no first day: `GetStats` of the key gives that value alone,
-- whatever was stored before. A negative zero is read back as zero.
pub get_stats-update_stats :
    (env : Env) (id : ℤ) (key : Bytes) (value : Float64) (period_id : ℤ) (s : Store)
    → NeverFails env
    → IsValid s
    → is_nan value ≡ false
    → is_time_key key ≡ false
    → ((today : ℕ) → period_cutoff period_id today ≡ none)
    → ((update_stats env id (record { key = key; value = value } ∷ []) period_id
          >> get_stats env id (key ∷ []) period_id)
        s).0
      ≡ ok (record { key = key; value = stored value } ∷ [])
unfolding update_stats get_stats ◌>>=◌ stmt upsert_stat period_date_clause best_persona_id_for_keys
    find linked_historical_stats select best_for_first Option_map stat_values set_value keep_better
get_stats-update_stats env id key value period_id s calm v number plain always =
    let row : StatRow = record {
      persona_id = id;
      key = key;
      value = stored value;
      period_id = period_id;
      updated_at = env.stamp (s.ticks + 1);
    } in
    let alone = put_stat_alone id period_id key row s.stats refl v.tables.stat_keys in
    rw (calm s.ticks, number, plain, always, calm, or_true (id ==ℤ pos 0), alone) refl
