-- ===== src/Text/Number/RoundTrip.antt =====
-- Printed integers are read back.
use medge_net.Prelude.{
  ℕ, zero, suc, ◌+◌, ◌-◌, ◌*◌, ◌/◌, ◌%◌, ◌^◌, ◌≤◌, ◌<◌, ◌≡◌, ◌≢◌, refl, ◌∙◌, true, false, [], ◌∷◌,
  some, Bytes, All, arith, ◌==◌, Bool-cases, inl, inr,
}
use medge_net.Prelude.Int.{ℤ, pos, negsuc}
use medge_net.Text.Number.{max_u64, scan, clamp, parse_int, digits, format_nat, format_int}

abbrev pub IsDigit : ℕ → Type 0
IsDigit c = (b'0' ≤ c) × (c ≤ b'9')

scan_last :
    (n : ℕ) (rest : Bytes) → n ≤ max_u64 → scan ((b'0' + n % 10) ∷ rest) (n / 10) ≡ scan rest n
unfolding scan
scan_last n rest h =
    let e : n / 10 * 10 + (b'0' + n % 10 - b'0') ≡ n = omega arith in rw e (ground arith)

scan-digits :
    (fuel n : ℕ) (out : Bytes) → n ≤ fuel → n ≤ max_u64 → scan (digits fuel n out) 0 ≡ scan out n
unfolding digits
scan-digits zero n out h k = let e : n ≡ 0 = omega arith in rw e
scan-digits (suc fuel) n out h k = elim (Bool-cases (n == 0)) [
  | inl e ↦ rw e (let z : n ≡ 0 = ground arith in rw z)
  | inr e ↦ rw e (scan-digits fuel (n / 10) _ (ground arith) (omega arith) ∙ scan_last n out k)
]

digits-IsDigit : (fuel n : ℕ) (out : Bytes) → All IsDigit out → All IsDigit (digits fuel n out)
unfolding digits
digits-IsDigit zero n out h = h
digits-IsDigit (suc fuel) n out h =
    ground (arith, digits-IsDigit fuel (n / 10) ((b'0' + n % 10) ∷ out))

-- A printed number is one or more digits.
pub format_nat-IsDigit : (n : ℕ) → All IsDigit (format_nat n)
unfolding format_nat
format_nat-IsDigit n = ground (arith, digits-IsDigit n n [])

digits-ne-nil : (fuel n : ℕ) (out : Bytes) → out ≢ [] → digits fuel n out ≢ []
unfolding digits
digits-ne-nil zero n out h = h
digits-ne-nil (suc fuel) n out h =
    ground (arith, digits-ne-nil fuel (n / 10) ((b'0' + n % 10) ∷ out))

cons-ne-nil : (c : ℕ) (s : Bytes) → c ∷ s ≢ []
cons-ne-nil c s = cc

format_nat-ne-nil : (n : ℕ) → format_nat n ≢ []
unfolding format_nat digits
format_nat-ne-nil zero = cc
format_nat-ne-nil (suc n) = ground (
  arith,
  digits-ne-nil n (suc n / 10) ((b'0' + suc n % 10) ∷ []) (cons-ne-nil (b'0' + suc n % 10) []),
)

scan-format_nat : (n : ℕ) → n ≤ max_u64 → scan (format_nat n) 0 ≡ some n
unfolding format_nat scan
scan-format_nat n h = ground (arith, scan-digits n n [] (omega arith) h)

parse_int-digits : (s : Bytes) → s ≢ [] → All IsDigit s → parse_int s ≡ clamp false (scan s 0)
unfolding parse_int
parse_int-digits [] h d = absurd (h refl)
parse_int-digits (c ∷ s) h d = ground arith

parse_int-minus : (s : Bytes) → s ≢ [] → parse_int (b'-' ∷ s) ≡ clamp true (scan s 0)
unfolding parse_int
parse_int-minus [] h = absurd (h refl)
parse_int-minus (c ∷ s) h = ground arith

abbrev pub IsInt64 : ℤ → Type 0
IsInt64 (pos n) = n < 2 ^ 63
IsInt64 (negsuc n) = n < 2 ^ 63

-- Every int64 that `FormatInt` prints is read back by `ParseInt`, with no error.
pub parse_int-format_int : (v : ℤ) → IsInt64 v → parse_int (format_int v) ≡ (v, true)
unfolding format_int clamp
parse_int-format_int (pos n) h =
    rw
      (
        parse_int-digits (format_nat n) (format_nat-ne-nil n) (format_nat-IsDigit n),
        scan-format_nat n (omega arith),
      )
      (ground arith)
parse_int-format_int (negsuc n) h =
    rw
      (
        parse_int-minus (format_nat (suc n)) (format_nat-ne-nil (suc n)),
        scan-format_nat (suc n) (omega arith),
      )
      (ground arith)
