-- ===== src/Calendar.antt =====
-- Days since 1970-01-01 in UTC, as Go's `time` reads them for `periodCutoff`.
pub mod Periods
use medge_net.Prelude.{
  ℕ, zero, suc, ◌+◌, ◌-◌, ◌/◌, ◌%◌, Bool, true, false, not, ◌&&◌, ◌||◌, List, [], ◌∷◌, ◌++◌, Option,
  none, some, Bytes, codes, ltb, ◌==◌, if◌then◌else◌,
}
use medge_net.Prelude.Int.{ℤ, pos, ◌==ℤ◌}

pub record Date : Type 0 where
  pub year : ℕ
  pub month : ℕ
  pub day : ℕ

unfoldable pub is_leap : ℕ → Bool
is_leap y = y % 4 == 0 && (not (y % 100 == 0) || y % 400 == 0)

unfoldable pub days_in_month : ℕ → ℕ → ℕ
unfolding is_leap
days_in_month y m =
    if m == 2
    then (if is_leap y then 29 else 28)
    else if m == 4 || m == 6 || m == 9 || m == 11
    then 30
    else 31

-- The date that is `n` days after the first of month `m` of year `y`. A month has a day at least,
-- so `n` rounds are enough.
unfoldable pub date_from : ℕ → ℕ → ℕ → ℕ → Date
unfolding days_in_month
date_from zero y m n = record { year = y; month = m; day = n + 1 }
date_from (suc fuel) y m n =
    let later =
      date_from fuel (if m == 12 then y + 1 else y) (if m == 12 then 1 else m + 1)
        (n - days_in_month y m) in
    if ltb n (days_in_month y m) then record { year = y; month = m; day = n + 1 } else later

unfoldable pub date_of : ℕ → Date
unfolding date_from
date_of n = date_from n 1970 1 n

-- `time.Weekday`: Sunday is 0.
unfoldable pub weekday : ℕ → ℕ
weekday n = (n + 4) % 7

-- `periodCutoff`: the first day of the week, which begins on Monday, or of the month.
unfoldable pub period_cutoff : ℤ → ℕ → Option ℕ
unfolding weekday date_of
period_cutoff period_id today =
    if period_id ==ℤ pos 2
    then some (today - ((if weekday today == 0 then 7 else weekday today) - 1))
    else if period_id ==ℤ pos 4
    then some (today - ((date_of today).day - 1))
    else none

-- Two digits, of a number below 100.
abbrev two_digits : ℕ → Bytes
two_digits n = (b'0' + n / 10) ∷ (b'0' + n % 10) ∷ []

-- "2006-01-02 15:04:05" at midnight.
unfoldable pub format_day : ℕ → Bytes
unfolding date_of
format_day n =
    let d = date_of n in
    two_digits (d.year / 100)
    ++ (two_digits (d.year % 100)
        ++ (codes "-"
            ++ (two_digits d.month ++ (codes "-" ++ (two_digits d.day ++ codes " 00:00:00")))))
