-- ===== src/Loan/Date/Order.antt =====
-- internal/loan/date.go: the order of dates by their keys.
use new_trs.Common.{
  ℕ, ◌+◌, ◌≤◌, ◌<◌, ◌≡◌, ◌⊎◌, inl, inr, refl, ap, ◌-◌, true, false, arith, ltb, ltb→lt, Bool-cases,
}
use new_trs.Loan.Date.{Date, IsValid, before, equal, next_day, previous_day, days_in}

pub days_in_bounds : (y m : ℕ) → (28 ≤ days_in y m) × (days_in y m ≤ 31)
unfolding days_in
days_in_bounds y m = ground arith

pub equal-eq : (d e : Date) → IsValid d → IsValid e → equal d e ≡ true → d ≡ e
unfolding equal
equal-eq d e v w h = ground (arith, days_in_bounds d.year d.month, days_in_bounds e.year e.month)

-- On calendar dates Before, which compares keys, gives an earlier year, or the same year and
-- an earlier month, or the same month and an earlier day.
pub before-lexicographic :
    (d e : Date)
    → IsValid d
    → IsValid e
    → before d e ≡ true
    → (d.year < e.year)
      ⊎ ((d.year ≡ e.year) × (d.month < e.month))
      ⊎ ((d.year ≡ e.year) × (d.month ≡ e.month) × (d.day < e.day))
unfolding before
before-lexicographic d e v w h =
    ground (arith, days_in_bounds d.year d.month, days_in_bounds e.year e.month)

pub next_day-IsValid : (d : Date) → IsValid d → IsValid (next_day d)
unfolding next_day
next_day-IsValid d v = ground (
  arith,
  days_in_bounds d.year d.month,
  days_in_bounds d.year (d.month + 1),
  days_in_bounds (d.year + 1) 1,
)

-- For a calendar date with a later one, the next day is after it, and the later one is not
-- before the next day.
pub next_day-covers :
    (d e : Date)
    → IsValid d
    → IsValid e
    → before d e ≡ true
    → (before d (next_day d) ≡ true) × (before e (next_day d) ≡ false)
unfolding next_day before
next_day-covers d e v w h = (
  ground (arith, days_in_bounds d.year d.month),
  ground (arith, days_in_bounds d.year d.month, days_in_bounds e.year e.month),
)

Date_ext : (d e : Date) → d.year ≡ e.year → d.month ≡ e.month → d.day ≡ e.day → d ≡ e
Date_ext d e p q r = λ i. record { year = p i; month = q i; day = r i }

-- The three ways to the next day.
pub next_day_cases :
    (d : Date)
    → ((d.day < days_in d.year d.month) × (next_day d ≡ record d { day = d.day + 1 }))
      ⊎ ((days_in d.year d.month ≤ d.day)
          × (d.month < 12)
          × (next_day d ≡ record d { month = d.month + 1; day = 1 }))
      ⊎ ((days_in d.year d.month ≤ d.day)
          × (12 ≤ d.month)
          × (next_day d ≡ record { year = d.year + 1; month = 1; day = 1 }))
unfolding next_day
next_day_cases d = elim (Bool-cases (ltb d.day (days_in d.year d.month))) [
  | inl e ↦ inl (ltb→lt _ _ e, rw e)
  | inr e ↦ elim (Bool-cases (ltb d.month 12)) [
    | inl f ↦ inr (inl (ground arith, ltb→lt _ _ f, rw (e, f)))
    | inr f ↦ inr (inr (ground arith, ground arith, rw (e, f)))
  ]
]

pub december_days : (y : ℕ) → days_in y 12 ≡ 31
unfolding days_in
december_days y = refl

-- Going a day back undoes going a day on.
pub previous_day-next_day : (d : Date) → IsValid d → previous_day (next_day d) ≡ d
unfolding previous_day
previous_day-next_day d v = elim (next_day_cases d) [
  | inl (h, e) ↦ rw e (Date_ext _ d (ground arith) (ground arith) (ground arith))
  | inr (inl (h, k, e)) ↦
      let same : d.month + 1 - 1 ≡ d.month = omega arith in
      rw e (Date_ext _ d (ground arith) (ground arith) (ground (arith, ap (days_in d.year) same)))
  | inr (inr (h, k, e)) ↦
      rw e (Date_ext _ d (ground arith) (ground arith) (ground (arith, december)))
]
  where
    december : d.month ≡ 12 → days_in d.year d.month ≡ 31
    december e = rw e (december_days d.year)
