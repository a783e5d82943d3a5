-- ===== src/Loan/Date.antt =====
-- internal/loan/date.go: calendar dates. A year is a natural number, and the time package's civil
-- calendar is written out: AddDays steps day by day, in a location whose days all have a midnight.
-- The date of an instant in a location (NewDate) is an argument of the functions that need it.
pub mod Order
pub mod Calendar
pub mod Text
use new_trs.Common.{
  ℕ, zero, suc, ◌+◌, ◌-◌, ◌*◌, ◌%◌, ◌≤◌, ◌<◌, ◌≡◌, refl, Bool, true, false, not, ◌&&◌, ◌||◌, ltb,
  leb, ◌==◌, if◌then◌else◌,
}
use new_trs.Common.Int.{ℤ, pos, negsuc}

pub record Date : Type 0 where
  pub year : ℕ
  pub month : ℕ
  pub day : ℕ

-- The zero value of the type.
abbrev pub no_date : Date
no_date = record { year = 0; month = 0; day = 0 }

abbrev pub is_zero : Date → Bool
is_zero d = d.year == 0

abbrev pub key : Date → ℕ
key d = d.year * 10000 + d.month * 100 + d.day

unfoldable pub before : Date → Date → Bool
before d e = ltb (key d) (key e)

unfoldable pub after : Date → Date → Bool
after d e = ltb (key e) (key d)

unfoldable pub equal : Date → Date → Bool
equal d e = key d == key e

is_leap : ℕ → Bool
is_leap y = (y % 4 == 0) && (not (y % 100 == 0) || (y % 400 == 0))

-- The table of month lengths in the time package.
unfoldable pub days_in : ℕ → ℕ → ℕ
unfolding is_leap
days_in year month =
    if (month == 11) || (month == 9) || (month == 6) || (month == 4)
    then 30
    else if month == 2
    then (if is_leap year then 29 else 28)
    else 31

unfoldable pub next_day : Date → Date
next_day d =
    if ltb d.day (days_in d.year d.month)
    then record d { day = d.day + 1 }
    else if ltb d.month 12
    then record d { month = d.month + 1; day = 1 }
    else record { year = d.year + 1; month = 1; day = 1 }

unfoldable pub previous_day : Date → Date
previous_day d =
    if ltb 1 d.day
    then record d { day = d.day - 1 }
    else if ltb 1 d.month
    then record d { month = d.month - 1; day = days_in d.year (d.month - 1) }
    else record { year = d.year - 1; month = 12; day = 31 }

-- `n` days on, or back.
forward : ℕ → Date → Date
forward zero d = d
forward (suc n) d = next_day (forward n d)

backward : ℕ → Date → Date
backward zero d = d
backward (suc n) d = previous_day (backward n d)

unfoldable pub add_days : Date → ℤ → Date
unfolding forward backward
add_days d (pos n) = forward n d
add_days d (negsuc n) = backward (suc n) d

unfoldable pub default_reporting_date : Date → Date
default_reporting_date today =
    if not ((add_days today (pos 1)).month == today.month)
    then today
    else add_days (record today { day = 1 }) (negsuc 0)

-- A date of the calendar.
pub record IsValid (d : Date) : Type 0 where
  pub year_pos : 1 ≤ d.year
  pub month_pos : 1 ≤ d.month
  pub month_le : d.month ≤ 12
  pub day_pos : 1 ≤ d.day
  pub day_le : d.day ≤ days_in d.year d.month

leap_day :
    add_days (record { year = 2024; month = 2; day = 28 }) (pos 2)
    ≡ record { year = 2024; month = 3; day = 1 }
unfolding add_days next_day days_in
leap_day = refl

month_end_back :
    default_reporting_date (record { year = 2025; month = 3; day = 30 })
    ≡ record { year = 2025; month = 2; day = 28 }
unfolding default_reporting_date add_days next_day previous_day days_in
month_end_back = refl
