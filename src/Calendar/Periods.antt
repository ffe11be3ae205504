-- ===== src/Calendar/Periods.antt =====
-- `periodCutoff`: where the weekly and the monthly period begin.
use medge_net.Prelude.{
  ℕ, zero, suc, ◌+◌, ◌-◌, ◌%◌, ◌≤◌, ◌<◌, ◌≡◌, refl, ap, ◌∙◌, true, false, some, ◌==◌, ltb,
  if◌then◌else◌, arith, inl, inr, Bool-cases,
}
use medge_net.Prelude.Int.{pos, ◌==ℤ◌}
use medge_net.Calendar.{days_in_month, date_from, date_of, weekday, period_cutoff}

-- From 1970-01-05, a Monday, on, the weekly period begins on a Monday, no later than today and less
-- than seven days ago.
pub period_cutoff_week :
    (today : ℕ)
    → 4 ≤ today
    → (start : ℕ) × (period_cutoff (pos 2) today ≡ some start)
      × (weekday start ≡ 1)
      × (start ≤ today)
      × (today < start + 7)
unfolding period_cutoff weekday ◌==ℤ◌
period_cutoff_week today h = (
  today - ((if (today + 4) % 7 == 0 then 7 else (today + 4) % 7) - 1),
  ground arith,
  ground arith,
  ground arith,
  ground arith,
)

month_pos : (y m : ℕ) → 0 < days_in_month y m
unfolding days_in_month
month_pos y m = ground arith

-- Any fuel that is enough gives the same date.
date_from_fuel : (f g y m n : ℕ) → n ≤ f → n ≤ g → date_from f y m n ≡ date_from g y m n
unfolding date_from
date_from_fuel zero zero y m n hf hg = refl
date_from_fuel zero (suc g) y m n hf hg = ground (arith, month_pos y m)
date_from_fuel (suc f) zero y m n hf hg = ground (arith, month_pos y m)
date_from_fuel (suc f) (suc g) y m n hf hg = elim (Bool-cases (ltb n (days_in_month y m))) [
  | inl e ↦ rw e
  | inr e ↦
      rw e
        (date_from_fuel f g _ _ _ (ground (arith, month_pos y m)) (ground (arith, month_pos y m)))
]

within : (n d k : ℕ) → 1 ≤ d → k ≤ n → d ≤ n - k + 1 → ltb (n - (d - 1)) k ≡ false
within n d k h1 h2 h3 = ground arith

back : (n d k : ℕ) → 1 ≤ d → k ≤ n → d ≤ n - k + 1 → n - (d - 1) - k ≡ n - k - (d - 1)
back n d k h1 h2 h3 = omega arith

fits : (n k : ℕ) → ltb n k ≡ false → k ≤ n
fits n k e = ground arith

month_first : (n k : ℕ) → ltb n k ≡ true → ltb (n - (n + 1 - 1)) k ≡ true
month_first n k e = ground arith

month_start : (n : ℕ) → n - (n + 1 - 1) + 1 ≡ 1
month_start n = omega arith

-- Going back to the first day stays in the month.
date_from_first :
    (f y m n : ℕ)
    → n ≤ f
    → ((date_from f y m n).day ≤ n + 1)
      × (1 ≤ (date_from f y m n).day)
      × (date_from f y m (n - ((date_from f y m n).day - 1))
          ≡ record (date_from f y m n) { day = 1 })
unfolding date_from
date_from_first zero y m n h = ground arith
date_from_first (suc f) y m n h = elim (Bool-cases (ltb n (days_in_month y m))) [
  | inl e ↦ rw e (
    omega arith,
    omega arith,
    rw (month_first n (days_in_month y m) e)
        (ap (λ d. record { year = y; month = m; day = d }) (month_start n)),
  )
  | inr e ↦
      let k = days_in_month y m in
      let ih =
        date_from_first f (if m == 12 then y + 1 else y) (if m == 12 then 1 else m + 1) (n - k)
          (ground (arith, month_pos y m)) in
      let d =
        (date_from f (if m == 12 then y + 1 else y) (if m == 12 then 1 else m + 1) (n - k)).day in
      rw e (
        omega (arith, ih.0),
        ih.1,
        rw (within n d k ih.1 (fits n k e) ih.0, back n d k ih.1 (fits n k e) ih.0) ih.2,
      )
]

-- The monthly period begins on the first day of today's month, no later than today.
pub period_cutoff_month :
    (today : ℕ)
    → (start : ℕ) × (period_cutoff (pos 4) today ≡ some start)
      × (date_of start ≡ record (date_of today) { day = 1 })
      × (start ≤ today)
unfolding period_cutoff date_of ◌==ℤ◌
period_cutoff_month today =
    let first = date_from_first today 1970 1 today (omega arith) in
    let start = today - ((date_from today 1970 1 today).day - 1) in
    (
      start,
      refl,
      date_from_fuel start today 1970 1 start (omega arith) (omega arith) ∙ first.2,
      omega arith,
    )
