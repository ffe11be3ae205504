-- ===== src/Store/Rank/Position.antt =====
-- The rank that `rankForValue` counts against the place on the leaderboard that `TopN` gives.
use medge_net.Prelude.{
  ◌+◌, ◌≤◌, ◌≡◌, refl, sym, ap, ◌∙◌, Bool, true, List, [], ◌∷◌, ◌++◌, map, Option, none, some,
  Bytes, All, length, inl, inr, Bool-cases, Option-cases, arith,
}
use medge_net.Prelude.Int.{ℤ, ◌==ℤ◌, ==ℤ_iff}
use medge_net.Float.{Float64, order}
use medge_net.Store.{StatRow, PlayerRow, RunRow, LinkRow, Store, find, select, is_some}
use medge_net.Store.Keys.{All-select, find-eq-some, find-All}
use medge_net.Store.Personas.{has_id}
use medge_net.Store.Rank.{
  Time, is_before, collect, add_best, best, in_scope, run_in_scope, live_time, linked_time,
  unlinked_time, run_time, if_unlinked, candidate_times, rank_of,
}
use medge_net.Store.Rank.Bound.{length-best}
use medge_net.Store.Rank.TopN.{
  Candidate, live_candidate, linked_candidate, linked_to, imported_candidate, of_persona,
  candidates, leaderboard,
}
use medge_net.Store.Rank.TopN.Sorted.{Sorted, value, leaderboard-Sorted, length-sort_by_value}
use medge_net.Store.Stats.Scope.{sql_at_most, player_of, link_of, link_of_player, has_source}
use medge_net.Text.{Option_map}

abbrev of_candidate : Candidate → Time
of_candidate c = c.time

-- Rows may be turned into times before or after the best are taken.
add_best-map :
    (x : Candidate) (ys : List Candidate)
    → map of_candidate (add_best of_candidate x ys)
      ≡ add_best (λ (t : Time). t) x.time (map of_candidate ys)
unfolding add_best
add_best-map x [] = refl
add_best-map x (y ∷ ys) = elim (Bool-cases (y.time.owner_id ==ℤ x.time.owner_id)) [
  | inl e ↦ elim (Bool-cases (is_before y.time x.time)) [
    | inl b ↦ rw (e, b) refl
    | inr b ↦ rw (e, b) refl
  ]
  | inr e ↦ rw e (ap (◌∷◌ y.time) (add_best-map x ys))
]

best-map :
    (xs : List Candidate)
    → map of_candidate (best of_candidate xs) ≡ best (λ (t : Time). t) (map of_candidate xs)
unfolding best
best-map [] = refl
best-map (x ∷ xs) =
    add_best-map x (best of_candidate xs) ∙ ap (add_best (λ (t : Time). t) x.time) (best-map xs)

length-select-map :
    (p : Time → Bool) (xs : List Candidate)
    → length (select p (map of_candidate xs)) ≡ length (select (λ c. p c.time) xs)
unfolding select
length-select-map p [] = refl
length-select-map p (x ∷ xs) = ground (arith, length-select-map p xs)

-- Every row of the statistics names a persona, and so does every link.
pub record HasOwners (s : Store) : Type 0 where
  pub of_stats :
      All (λ (r : StatRow). is_some (find (has_id r.persona_id) s.personas) ≡ true) s.stats
  pub of_links :
      All
        (λ (l : LinkRow). is_some (find (has_id l.persona_id) s.personas) ≡ true)
        s.historical_account_links

map-collect {ℓ} :
    {A : Type ℓ} (f : A → Option Candidate) (g : A → Option Time) (xs : List A)
    → All (λ x. Option_map of_candidate (f x) ≡ g x) xs
    → map of_candidate (collect f xs) ≡ collect g xs
unfolding collect Option_map
map-collect f g [] h = refl
map-collect f g (x ∷ xs) h = elim (Option-cases (f x)) [
  | inl e ↦
      let nothing : g x ≡ none = sym h.0 ∙ rw e refl in rw (e, nothing) (map-collect f g xs h.1)
  | inr (c, e) ↦
      let time : g x ≡ some c.time = sym h.0 ∙ rw e refl in
      rw (e, time) (ap (◌∷◌ c.time) (map-collect f g xs h.1))
]

map-append :
    (xs ys : List Candidate)
    → map of_candidate (xs ++ ys) ≡ map of_candidate xs ++ map of_candidate ys
map-append [] ys = refl
map-append (x ∷ xs) ys = ap (◌∷◌ x.time) (map-append xs ys)

module _ (s : Store) (h : HasOwners s) where
  joined :
      (t : Time)
      → is_some (find (has_id t.owner_id) s.personas) ≡ true
      → Option_map of_candidate (Option_map (of_persona t) (find (has_id t.owner_id) s.personas))
        ≡ some t
  unfolding Option_map
  joined t e = elim (Option-cases (find (has_id t.owner_id) s.personas)) [
    | inl n ↦ absurd (cc (rw n at e))
    | inr (p, f) ↦
        let same = (==ℤ_iff p.id t.owner_id).0 (find-eq-some (has_id t.owner_id) s.personas p f) in
        rw f (ap (λ id. some (record t { owner_id = id })) same)
  ]

  live :
      (rows : List StatRow)
      → All (λ (r : StatRow). is_some (find (has_id r.persona_id) s.personas) ≡ true) rows
      → All (λ r. Option_map of_candidate (live_candidate s r) ≡ some (live_time r)) rows
  live [] h = tt
  live (r ∷ rows) h = (joined (live_time r) h.0, live rows h.1)

  linked_one : (r : RunRow) → Option_map of_candidate (linked_candidate s r) ≡ linked_time s r
  unfolding Option_map link_of
  linked_one r = go (player_of s r) (link_of_player s (player_of s r)) refl
    where
      go :
          (player : Option PlayerRow) (found : Option LinkRow)
          → link_of_player s player ≡ found
          → Option_map of_candidate (linked_to s r found)
            ≡ Option_map (λ (l : LinkRow). run_time r l.persona_id) found
      go player none e = refl
      go none (some l) e = absurd (cc)
      go (some p) (some l) e = joined (run_time r l.persona_id) (
          find-All (λ (l : LinkRow). is_some (find (has_id l.persona_id) s.personas) ≡ true)
            (has_source p.source_key) s.historical_account_links l h.of_links e)

  imported_one : (r : RunRow) → Option_map of_candidate (imported_candidate s r) ≡ unlinked_time s r
  unfolding Option_map
  imported_one r = elim (Option-cases (if_unlinked s (player_of s r))) [
    | inl e ↦ rw e refl
    | inr (p, e) ↦ rw e refl
  ]

  each_row {ℓ} : {A : Type ℓ} (P : A → Type 0) (xs : List A) → ((x : A) → P x) → All P xs
  each_row P [] f = tt
  each_row P (x ∷ xs) f = (f x, each_row P xs f)

  -- The leaderboard's candidates are the rank query's.
  candidates-candidate_times :
      (key : Bytes) (period_id : ℤ) (cutoff : Option Bytes)
      → map of_candidate (candidates s key period_id cutoff)
        ≡ candidate_times s key period_id cutoff
  unfolding candidates candidate_times
  candidates-candidate_times key period_id cutoff =
      let runs = select (run_in_scope key period_id cutoff) s.historical_runs in
      let rows = select (in_scope key period_id cutoff) s.stats in
      let first =
        map-collect (live_candidate s) (λ r. some (live_time r)) rows
          (live rows (All-select _ (in_scope key period_id cutoff) s.stats h.of_stats)) in
      let second =
        map-collect (linked_candidate s) (linked_time s) runs (each_row _ runs linked_one) in
      let third =
        map-collect (imported_candidate s) (unlinked_time s) runs (each_row _ runs imported_one) in
      rw (map-append, map-append, first, second, third) refl

  -- The rank query counts the rows of the leaderboard up to a value.
  pub rank_of-leaderboard :
      (key : Bytes) (period_id : ℤ) (cutoff : Option Bytes) (bound : Float64)
      → rank_of s key period_id cutoff bound
        ≡ length (select (λ c. sql_at_most (value c) bound) (leaderboard s key period_id cutoff))
  unfolding rank_of leaderboard
  rank_of-leaderboard key period_id cutoff bound =
      let cs = candidates s key period_id cutoff in
      let le : Time → Bool = λ t. sql_at_most t.value bound in
      length-best (λ (t : Time). t) bound (candidate_times s key period_id cutoff)
      ∙ (ap (λ ts. length (select le (best (λ (t : Time). t) ts)))
            (sym (candidates-candidate_times key period_id cutoff))
          ∙ (ap (λ ts. length (select le ts)) (sym (best-map cs))
              ∙ (length-select-map le (best of_candidate cs)
                  ∙ sym (length-sort_by_value (λ c. le c.time) (best of_candidate cs)))))

All-middle {ℓ κ} :
    {A : Type ℓ} (P : A → Type κ) (xs : List A) (x : A) (ys : List A) → All P (xs ++ x ∷ ys) → P x
All-middle P [] x ys h = h.0
All-middle P (y ∷ xs) x ys h = All-middle P xs x ys h.1

-- Rows in front of a row are not above it.
count_front :
    (xs : List Candidate) (r : Candidate) (ys : List Candidate)
    → Sorted (xs ++ r ∷ ys)
    → length (select (λ c. sql_at_most (value c) (value r)) (xs ++ r ∷ ys))
      ≡ length xs + 1 + length (select (λ c. sql_at_most (value c) (value r)) ys)
unfolding select
count_front [] r ys d = ground arith
count_front (x ∷ xs) r ys d =
    let le : order (value x) ≤ order (value r) = (All-middle _ xs r ys d.0) in
    ground (arith, count_front xs r ys d.1)

-- Where all statistics and links name a persona, the rank that `rankForValue` counts for the value of
-- a row of the leaderboard is the row's place there, from 1 on, plus the number of later rows that are
-- not above it, which are those that tie with it.
pub rank_of_place :
    (s : Store) (key : Bytes) (period_id : ℤ) (cutoff : Option Bytes) (front : List Candidate)
    (row : Candidate) (behind : List Candidate)
    → HasOwners s
    → leaderboard s key period_id cutoff ≡ front ++ row ∷ behind
    → rank_of s key period_id cutoff (value row)
      ≡ length front + 1 + length (select (λ c. sql_at_most (value c) (value row)) behind)
rank_of_place s key period_id cutoff front row behind h e =
    let sorted = rw e at ((leaderboard-Sorted s key period_id cutoff).0) in
    rank_of-leaderboard s h key period_id cutoff (value row)
    ∙ (ap (λ rows. length (select (λ c. sql_at_most (value c) (value row)) rows)) e
        ∙ count_front front row behind sorted)
