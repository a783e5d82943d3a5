-- ===== src/Contractual/Schedule.antt =====
-- internal/contractual/calculator.go: the contractual schedule of a flat-rate loan (BuildSchedule).
-- `none` as the rounding is the nil Round, which keeps exact values.
pub mod Numbering
pub mod Rows
pub mod Built
pub mod Exact
use new_trs.Common.{
  ℕ, zero, suc, ◌+◌, ◌≡◌, Bool, true, false, not, ◌&&◌, ◌||◌, ◌==◌, if◌then◌else◌, List, [], ◌∷◌,
  Option, none, some, length, Result, ok, err, refuse, ◌>>◌, ◌>>=◌, invariant,
  unsupported_calculation, Error,
}
use new_trs.Common.Int.{ℤ, pos, negsuc, ltb_ℤ, eq_ℤ}
use new_trs.Common.Sort.{sort}
use new_trs.Loan.Money.{Money, add, sub, mul, div_int, exceeds, is_negative, is_zero}
use new_trs.Loan.Date.{Date}
use new_trs.Loan.Date
use new_trs.Loan.Model.{ContractualInstallment, ContractualScheduleRow}

abbrev pub Rounding : Type 0
Rounding = Option (Money → Money)

unfoldable pub round : Rounding → Money → Money
round none value = value
round (some f) value = f value

unfoldable pub bad_parameters : Money → ℤ → Money → Bool
bad_parameters principal tenor flat_rate =
    is_negative principal || is_zero principal || not (ltb_ℤ (pos 0) tenor) || is_negative flat_rate

-- An error of the division, under the invariant sentinel.
abbrev pub or_invariant : Result Money → Result Money
or_invariant (ok x) = ok x
or_invariant (err e) = err invariant

abbrev pub smaller_number : ContractualInstallment → ContractualInstallment → Bool
smaller_number l r = ltb_ℤ l.number r.number

-- The date is not later than that of the installment before.
unfoldable pub not_after : Option ContractualInstallment → ContractualInstallment → Bool
not_after none i = false
not_after (some before) i = not (Date.after i.due_date before.due_date)

-- The installments from `index` on, with the one before them, are numbered in sequence, dated, and in
-- strict order of date.
unfoldable pub check_numbering :
    ℕ → Option ContractualInstallment → List ContractualInstallment → Result (Unit {0})
check_numbering index before [] = ok tt
check_numbering index before (i ∷ rest) =
    let later = check_numbering (suc index) (some i) rest in
    (do
      refuse (not (eq_ℤ i.number (pos (suc index))) || Date.is_zero i.due_date)
          unsupported_calculation
      refuse (not_after before i) unsupported_calculation
      later)

-- The rows from `index` on. The last one takes the whole balance.
unfoldable pub fill_rows :
    ℕ
    → Money
    → Money
    → ℕ
    → Money
    → List ContractualInstallment
    → Result (List ContractualScheduleRow)
fill_rows tenor per_period interest index balance [] = ok []
fill_rows tenor per_period interest index balance (i ∷ rest) =
    let is_last = suc index == tenor in
    let principal = if is_last then balance else per_period in
    let left = sub balance principal in
    let later = fill_rows tenor per_period interest (suc index) left rest in
    (do
      refuse (not is_last && exceeds per_period balance) invariant
      more ← later
      ok (
          record {
            number = i.number;
            due_date = i.due_date;
            principal = principal;
            interest = interest;
            installment = add principal interest;
            scheduled_balance = left;
          }
          ∷ more))

-- Principal and interest of one period, before rounding.
unfoldable pub period_principal : Money → ℤ → Result Money
period_principal principal tenor = or_invariant (div_int principal tenor)

unfoldable pub period_interest : Money → Money → Result Money
period_interest principal flat_rate = or_invariant (div_int (mul principal flat_rate) (pos 1200))

unfoldable pub build_schedule :
    Rounding
    → Money
    → ℤ
    → Money
    → List ContractualInstallment
    → Result (List ContractualScheduleRow)
build_schedule rounding principal tenor flat_rate source = do
  refuse (bad_parameters principal tenor flat_rate) invariant
  let installments = sort smaller_number source
  refuse (not (eq_ℤ (pos (length installments)) tenor)) unsupported_calculation
  check_numbering 0 none installments
  exact_principal ← period_principal principal tenor
  exact_interest ← period_interest principal flat_rate
  let per_period = round rounding exact_principal
  let interest = round rounding exact_interest
  refuse (is_negative per_period || is_negative interest) invariant
  fill_rows (length installments) per_period interest 0 principal installments
