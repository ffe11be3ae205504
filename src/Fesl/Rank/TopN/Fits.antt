-- ===== src/Fesl/Rank/TopN/Fits.antt =====
-- server/fesl/rank.go: how many rows of a leaderboard a reply holds.
use medge_net.Prelude.{
  ℕ, zero, suc, ◌-◌, ◌≤◌, ◌<◌, ◌≡◌, ◌⊎◌, inl, inr, refl, sym, ap, ◌∙◌, true, false, ◌&&◌, List, [],
  ◌∷◌, Bytes, length, take, length-take, ltb, Bool-cases, arith,
}
use medge_net.Env.{Env}
use medge_net.Store.Rank.TopN.{TopEntry}
use medge_net.Fesl.Rank.TopN.{max_rank_packet_bytes, fit, fitted, encoded, cap_historical}
use medge_net.Packet.{Packet}

take-take {ℓ} : {A : Type ℓ} (a b : ℕ) (xs : List A) → a ≤ b → take a (take b xs) ≡ take a xs
take-take zero b xs h = refl
take-take (suc a) zero xs h = absurd (omega arith)
take-take (suc a) (suc b) [] h = refl
take-take (suc a) (suc b) (x ∷ xs) h = ap (◌∷◌ x) (take-take a b xs (omega arith))

take_all {ℓ} : {A : Type ℓ} (xs : List A) → take (length xs) xs ≡ xs
take_all [] = refl
take_all (x ∷ xs) = ap (◌∷◌ x) (take_all xs)

-- What the loop leaves of `entries`: the first `kept` of them, whose reply is within the limit unless a
-- single row is left, and no longer prefix of which is.
pub record Longest (build : List TopEntry → Bytes) (entries out : List TopEntry) : Type 0 where
  pub kept : ℕ
  pub within_length : kept ≤ length entries
  pub prefix : out ≡ take kept entries
  pub fits : (length (build out) ≤ max_rank_packet_bytes) ⊎ (kept ≤ 1)
  pub longest :
      (more : ℕ)
      → kept < more
      → more ≤ length entries
      → max_rank_packet_bytes < length (build (take more entries))

module _ (env : Env) where
  too_large :
      (build : List TopEntry → Bytes) (entries : List TopEntry)
      → (ltb max_rank_packet_bytes (length (build entries)) && ltb 1 (length entries)) ≡ true
      → (max_rank_packet_bytes < length (build entries)) × (1 < length entries)
  too_large build entries e = ground arith

  small :
      (build : List TopEntry → Bytes) (entries : List TopEntry)
      → (ltb max_rank_packet_bytes (length (build entries)) && ltb 1 (length entries)) ≡ false
      → (length (build entries) ≤ max_rank_packet_bytes) ⊎ (length entries ≤ 1)
  small build entries e = elim (Bool-cases (ltb max_rank_packet_bytes (length (build entries)))) [
    | inl l ↦ inr (ground arith)
    | inr l ↦ inl (ground arith)
  ]

  longest_lem :
      (build : List TopEntry → Bytes) (entries : List TopEntry) (kept : ℕ)
      → (ltb max_rank_packet_bytes (length (build entries)) && ltb 1 (length entries)) ≡ true
      → ((more : ℕ)
          → kept < more
          → more ≤ length (take (length entries - 1) entries)
          → max_rank_packet_bytes < length (build (take more (take (length entries - 1) entries))))
      → (more : ℕ) → kept < more
      → more ≤ length entries
      → max_rank_packet_bytes < length (build (take more entries))
  longest_lem build entries kept e h more a b =
      let large = too_large build entries e in
      elim (Bool-cases (ltb more (length entries))) [
        | inl l ↦
            rw (sym (take-take more (length entries - 1) entries (ground arith)))
              (h more a (ground (arith, length-take (length entries - 1) entries)))
        | inr l ↦
            let all : more ≡ length entries = ground arith in rw (all, take_all entries) large.0
      ]

  -- The loop of `handleGetTopNAndStats`, given as many rounds as there are rows, leaves the longest
  -- prefix of the rows whose reply is within 60000 bytes, or one row if no such prefix has two.
  pub fit-Longest :
      (fuel : ℕ) (build : List TopEntry → Bytes) (entries : List TopEntry)
      → length entries ≤ fuel
      → Longest build entries (fit env fuel build entries)
  unfolding fit
  fit-Longest zero build entries h = record {
    kept = length entries;
    within_length = omega arith;
    prefix = sym (take_all entries);
    fits = inr (omega arith);
    longest = λ more a b. absurd (omega arith);
  }
  fit-Longest (suc fuel) build entries h =
      elim (Bool-cases
        (ltb max_rank_packet_bytes (length (build entries)) && ltb 1 (length entries))) [
          | inl e ↦
              let n = length entries in
              let short = length-take (n - 1) entries in
              let ih =
                fit-Longest fuel build (take (n - 1) entries)
                  (ground (arith, short, too_large build entries e)) in
              rw e (record {
                kept = ih.kept;
                within_length = ground (arith, short, ih.within_length);
                prefix =
                    ih.prefix
                    ∙ take-take ih.kept (n - 1) entries (ground (arith, short, ih.within_length));
                fits = ih.fits;
                longest = longest_lem build entries ih.kept e ih.longest;
              })
          | inr e ↦ rw e (record {
            kept = length entries;
            within_length = omega arith;
            prefix = sym (take_all entries);
            fits = small build entries e;
            longest = λ more a b. absurd (omega arith);
          })
        ]

-- GetTopNAndStats, once it has rows, replies with the longest prefix of them, or of their first 100
-- where an imported run is among them, whose reply is within 60000 bytes; if no such prefix has two
-- rows it replies with one row, or with none if there is none.
pub fitted-Longest :
    (env : Env) (pkt : Packet) (all_keys : List Bytes) (key : Bytes) (entries : List TopEntry)
    → (out : List TopEntry) × (fitted env pkt all_keys key entries
        ≡ encoded env pkt all_keys key out)
      × Longest (encoded env pkt all_keys key) (cap_historical env entries) out
unfolding fitted
fitted-Longest env pkt all_keys key entries = (
  fit env (length (cap_historical env entries)) (encoded env pkt all_keys key)
      (cap_historical env entries),
  refl,
  fit-Longest env (length (cap_historical env entries)) (encoded env pkt all_keys key)
      (cap_historical env entries) (omega arith),
)
