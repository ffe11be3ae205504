-- ===== src/Locker/Http/Cut.antt =====
-- Where a separator stands in a byte string.
use medge_net.Prelude.{
  ◌+◌, ◌≡◌, ◌≤◌, refl, ap, true, [], ◌∷◌, ◌++◌, Option, none, some, Bytes, length, length-append,
  drop-append_of_le, drop, arith, inl, inr, Bool-cases, Option-cases,
}
use medge_net.Text.{has_prefix, Option_map}
use medge_net.Locker.Http.{cut_at, end_of_headers}

has_prefix-append :
    (s p more : Bytes) → length p ≤ length s → has_prefix (s ++ more) p ≡ has_prefix s p
unfolding has_prefix
has_prefix-append s [] more h = ground arith
has_prefix-append [] (p ∷ ps) more h = absurd (omega arith)
has_prefix-append (c ∷ s) (p ∷ ps) more h = rw (has_prefix-append s ps more (omega arith))

has_prefix-length : (s p : Bytes) → has_prefix s p ≡ true → length p ≤ length s
unfolding has_prefix
has_prefix-length s [] h = omega arith
has_prefix-length [] (p ∷ ps) h = ground arith
has_prefix-length (c ∷ s) (p ∷ ps) h = ground (arith, has_prefix-length s ps)

-- A separator that is found fits.
cut_at-length : (sep s : Bytes) (r : Bytes × Bytes) → cut_at sep s ≡ some r → length sep ≤ length s
unfolding cut_at Option_map
cut_at-length sep [] r h = ground arith
cut_at-length sep (c ∷ s) r h = elim (Bool-cases (has_prefix (c ∷ s) sep)) [
  | inl e ↦ has_prefix-length (c ∷ s) sep e
  | inr e ↦ elim (Option-cases (cut_at sep s)) [
    | inl e' ↦ ground arith
    | inr (r', e') ↦ ground (arith, cut_at-length sep s r' e')
  ]
]

add_more :
    {p q : Bytes × Bytes} (more : Bytes)
    → some p ≡ some q
    → ◌≡◌ {A = Option (Bytes × Bytes)} (some (p.0, p.1 ++ more)) (some (q.0, q.1 ++ more))
unfolding Option_map
add_more more h = ap (Option_map (λ (p : Bytes × Bytes). (p.0, p.1 ++ more))) h

has_prefix_sound : (s p : Bytes) → has_prefix s p ≡ true → s ≡ p ++ drop (length p) s
unfolding has_prefix
has_prefix_sound s [] h = refl
has_prefix_sound [] (p ∷ ps) h = ground arith
has_prefix_sound (c ∷ s) (p ∷ ps) h = ground (arith, has_prefix_sound s ps)

abbrev whole : Bytes → Option (Bytes × Bytes) → Bytes
whole sep none = []
whole sep (some (head, after)) = head ++ (sep ++ after)

-- The parts and the separator are the whole.
pub cut_at_sound :
    (sep s head after : Bytes) → cut_at sep s ≡ some (head, after) → s ≡ head ++ (sep ++ after)
unfolding cut_at Option_map
cut_at_sound sep [] head after h = ground arith
cut_at_sound sep (c ∷ s) head after h = elim (Bool-cases (has_prefix (c ∷ s) sep)) [
  | inl e ↦ cc (has_prefix_sound (c ∷ s) sep e, ap (whole sep) (rw e at h))
  | inr e ↦ elim (Option-cases (cut_at sep s)) [
    | inl e' ↦ ground arith
    | inr (r', e') ↦
        cc (ap (c ∷◌) (cut_at_sound sep s r'.0 r'.1 e'), ap (whole sep) (rw (e, e') at h))
  ]
]

pub cut_at_lengths :
    (s head after : Bytes)
    → cut_at end_of_headers s ≡ some (head, after)
    → length s ≡ length head + 4 + length after
cut_at_lengths s head after h =
    rw (cut_at_sound end_of_headers s head after h)
      (omega (arith, length-append head (end_of_headers ++ after)))

-- What was found stays found, with the later bytes behind it.
pub cut_at-append :
    (sep s head after more : Bytes)
    → cut_at sep s ≡ some (head, after)
    → cut_at sep (s ++ more) ≡ some (head, after ++ more)
unfolding cut_at Option_map
cut_at-append sep [] head after more h = ground arith
cut_at-append sep (c ∷ s) head after more h = elim (Bool-cases (has_prefix (c ∷ s) sep)) [
  | inl e ↦
      rw
        (
          has_prefix-append (c ∷ s) sep more (has_prefix-length (c ∷ s) sep e),
          e,
          drop-append_of_le (length sep) (c ∷ s) more (has_prefix-length (c ∷ s) sep e),
        )
        (add_more more (rw e at h))
  | inr e ↦ elim (Option-cases (cut_at sep s)) [
    | inl e' ↦ ground arith
    | inr (r', e') ↦
        let fits = cut_at-length sep s r' e' in
        rw
          (
            has_prefix-append (c ∷ s) sep more (omega arith),
            e,
            cut_at-append sep s r'.0 r'.1 more e',
          )
          (add_more more (rw (e, e') at h))
  ]
]
