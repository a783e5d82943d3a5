-- ===== src/Loan/Date/Text.antt =====
-- internal/loan/date.go: ParseDate and String, in the layout 2006-01-02 of the time package. Years
-- have four digits.
use new_trs.Common.{
  ℕ, ◌+◌, ◌-◌, ◌*◌, ◌/◌, ◌%◌, ◌<◌, ◌≡◌, refl, true, false, not, ◌&&◌, ◌||◌, [], ◌∷◌, arith, ltb,
  ◌==◌, if◌then◌else◌, Result, ok, err, foreign, refuse, ◌>>◌,
}
use new_trs.Common.Text.{Text, codes, is_digit}
use new_trs.Loan.Date.{Date, IsValid, is_zero, days_in}
use new_trs.Loan.Date.Order.{days_in_bounds}

abbrev digit : ℕ → ℕ
digit n = b'0' + n % 10

unfoldable pub to_string : Date → Text
to_string d =
    if is_zero d
    then []
    else digit (d.year / 1000)
      ∷ digit (d.year / 100)
      ∷ digit (d.year / 10)
      ∷ digit d.year
      ∷ b'-'
      ∷ digit (d.month / 10)
      ∷ digit d.month
      ∷ b'-'
      ∷ digit (d.day / 10)
      ∷ digit d.day
      ∷ []

abbrev value : ℕ → ℕ
value c = c - b'0'

-- The fields must be digits, the month and the day those of the calendar.
unfoldable pub parse_date : Text → Result Date
parse_date (y ∷ y' ∷ y'' ∷ y''' ∷ s ∷ m ∷ m' ∷ s' ∷ d ∷ d' ∷ []) = do
  refuse (not (is_digit y && is_digit y' && is_digit y'' && is_digit y''' && (s == b'-'))) foreign
  refuse (not (is_digit m && is_digit m' && (s' == b'-') && is_digit d && is_digit d')) foreign
  let year = value y * 1000 + value y' * 100 + value y'' * 10 + value y'''
  let month = value m * 10 + value m'
  let day = value d * 10 + value d'
  refuse ((month == 0) || ltb 12 month) foreign
  refuse ((day == 0) || ltb (days_in year month) day) foreign
  ok (record { year = year; month = month; day = day })
parse_date _ = err foreign

parse_new_year : parse_date (codes "2025-10-12") ≡ ok (record { year = 2025; month = 10; day = 12 })
unfolding parse_date days_in is_digit
parse_new_year = refl

parse_short : parse_date (codes "2025-1-2") ≡ err foreign
unfolding parse_date is_digit
parse_short = refl

is_digit-digit : (n : ℕ) → is_digit (digit n) ≡ true
unfolding is_digit
is_digit-digit n = ground arith

year_digits :
    (y : ℕ)
    → y < 10000
    → value (digit (y / 1000)) * 1000
        + value (digit (y / 100)) * 100
        + value (digit (y / 10)) * 10
        + value (digit y)
      ≡ y
year_digits y h = omega arith

two_digits : (n : ℕ) → n < 100 → value (digit (n / 10)) * 10 + value (digit n) ≡ n
two_digits n h = omega arith

-- Parsing the text of a calendar date with a year below 10000 gives the date back.
pub parse_date-to_string : (d : Date) → IsValid d → d.year < 10000 → parse_date (to_string d) ≡ ok d
unfolding parse_date to_string
parse_date-to_string d v h =
    rw (nonzero, parse_date)
      (simp
        (
          is_digit-digit,
          year_digits d.year h,
          two_digits d.month month_small,
          two_digits d.day day_small,
        )
        (ground (arith, days_in_bounds d.year d.month)))
  where
    nonzero : is_zero d ≡ false
    nonzero = ground arith

    month_small : d.month < 100
    month_small = omega arith

    day_small : d.day < 100
    day_small = omega (arith, days_in_bounds d.year d.month)
