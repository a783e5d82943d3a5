-- ===== src/Loan/Date/Calendar.antt =====
-- internal/loan/date.go: DefaultReportingDate picks the latest month end that is not in the future.
use new_trs.Common.{◌-◌, ◌≤◌, ◌<◌, ◌≡◌, inl, inr, refl, false, arith, ltb, ltb→lt, Bool-cases, ◌⊎◌}
use mathlib.Core.Path.{ap₂}
use new_trs.Loan.Date.{
  Date, IsValid, after, previous_day, days_in, add_days, default_reporting_date,
}
use new_trs.Loan.Date.Order.{days_in_bounds, next_day_cases, december_days}

abbrev pub IsMonthEnd : Date → Type 0
IsMonthEnd d = d.day ≡ days_in d.year d.month

-- The two ways to the first day of a month less one day.
first_less_one :
    (d : Date)
    → ((1 < d.month)
        × (previous_day (record d { day = 1 })
            ≡ record d { month = d.month - 1; day = days_in d.year (d.month - 1) }))
      ⊎ ((d.month ≤ 1)
          × (previous_day (record d { day = 1 })
              ≡ record { year = d.year - 1; month = 12; day = 31 }))
unfolding previous_day
first_less_one d = elim (Bool-cases (ltb 1 d.month)) [
  | inl e ↦ inl (ltb→lt _ _ e, rw e)
  | inr e ↦ inr (ground arith, rw e)
]

-- Today if it is a month end, else the day before the first of the month.
default_cases :
    (today : Date)
    → IsValid today
    → (IsMonthEnd today × (default_reporting_date today ≡ today))
      ⊎ ((today.day < days_in today.year today.month)
          × (default_reporting_date today ≡ previous_day (record today { day = 1 })))
unfolding default_reporting_date add_days
default_cases today v = elim (next_day_cases today) [
  | inl (h, e) ↦ inr (h, rw e (ground arith))
  | inr (inl (h, k, e)) ↦ inl (ground (arith, v.day_le), rw e (ground arith))
  | inr (inr (h, k, e)) ↦ inl (ground (arith, v.day_le), rw e (ground (arith, v.month_le)))
]

-- What the chosen date `r` has to be, seen from `today`.
record IsLatestMonthEnd (today r : Date) : Type 0 where
  month_end : IsMonthEnd r
  not_future : after r today ≡ false
  latest : (e : Date) → IsValid e → IsMonthEnd e → after e today ≡ false → after e r ≡ false

previous_latest :
    (today : Date)
    → IsValid today
    → 2 ≤ today.year
    → today.day < days_in today.year today.month
    → IsLatestMonthEnd today (previous_day (record today { day = 1 }))
unfolding after
previous_latest today v y h = elim (first_less_one today) [
  | inl (m, e) ↦ rw e (record {
    month_end = refl;
    not_future = ground (arith, days_in_bounds today.year (today.month - 1));
    latest = λ f w end past. ground (
      arith,
      days_in_bounds today.year (today.month - 1),
      days_in_bounds f.year f.month,
      days_in_bounds today.year today.month,
      same f,
    );
  })
  | inr (m, e) ↦ rw e (record {
    month_end = ground (arith, december_days (today.year - 1));
    not_future = ground arith;
    latest = λ f w end past.
        ground
          (arith, days_in_bounds f.year f.month, days_in_bounds today.year today.month, same f);
  })
]
  where
    same :
        (f : Date)
        → (f.year ≡ today.year)
        → (f.month ≡ today.month)
        → days_in f.year f.month ≡ days_in today.year today.month
    same f p q = ap₂ days_in p q

default_reporting_date-IsLatestMonthEnd :
    (today : Date)
    → IsValid today
    → 2 ≤ today.year
    → IsLatestMonthEnd today (default_reporting_date today)
default_reporting_date-IsLatestMonthEnd today v y = elim (default_cases today v) [
  | inl (h, e) ↦
      rw e (record { month_end = h; not_future = irreflexive; latest = λ f w end past. past })
  | inr (h, e) ↦ rw e (previous_latest today v y h)
]
  where
    irreflexive : after today today ≡ false
    irreflexive = unfold after in ground arith

-- DefaultReportingDate is a month end that is not after today, and no month end that is not
-- after today is after it, from the year 2 on.
pub default_reporting_date_latest :
    (today e : Date)
    → IsValid today
    → 2 ≤ today.year
    → IsValid e
    → IsMonthEnd e
    → after e today ≡ false
    → IsMonthEnd (default_reporting_date today)
      × (after (default_reporting_date today) today ≡ false)
      × (after e (default_reporting_date today) ≡ false)
default_reporting_date_latest today e v y w end past =
    let r = default_reporting_date-IsLatestMonthEnd today v y in
    (r.month_end, r.not_future, r.latest e w end past)
