-- ===== src/Examples/Loans.antt =====
-- Dates: the theorems of internal/loan at concrete days.
use new_trs.Common.{◌≡◌, refl, false, ok, arith}
use new_trs.Loan.Date.{IsValid, after, days_in, default_reporting_date}
use new_trs.Loan.Date.Calendar.{IsMonthEnd, default_reporting_date_latest}
use new_trs.Loan.Date.Text.{parse_date, to_string, parse_date-to_string}
use new_trs.Examples.Data.{day}

leap_day_IsValid : IsValid (day 2024 2 29)
unfolding days_in
leap_day_IsValid = omega arith

march_day_IsValid : IsValid (day 2024 3 30)
unfolding days_in
march_day_IsValid = omega arith

default_reporting_date_latest_example :
    IsMonthEnd (default_reporting_date (day 2024 3 30))
    × (after (default_reporting_date (day 2024 3 30)) (day 2024 3 30) ≡ false)
    × (after (day 2024 2 29) (default_reporting_date (day 2024 3 30)) ≡ false)
unfolding after days_in
default_reporting_date_latest_example =
    default_reporting_date_latest (day 2024 3 30) (day 2024 2 29) march_day_IsValid (omega arith)
      leap_day_IsValid refl refl

parse_date-to_string_example : parse_date (to_string (day 2024 2 29)) ≡ ok (day 2024 2 29)
parse_date-to_string_example = parse_date-to_string (day 2024 2 29) leap_day_IsValid (omega arith)
