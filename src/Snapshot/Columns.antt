-- ===== src/Snapshot/Columns.antt =====
-- internal/snapshot/repository.go and internal/loan/money.go: what the columns of
-- current_loan_position_snapshot keep of a position. An amount is written with ten decimals (Value),
-- and the columns of amounts have ten. A text that the database finds equal to the empty text becomes
-- NULL. How the database compares texts, and what it keeps of an instant, are arguments.
use new_trs.Common.{ℕ, suc, ◌+◌, ◌*◌, ◌/◌, ◌≡◌, refl, if◌then◌else◌, Bool, Option, none, some}
use new_trs.Common.Int.{ℤ, pos, negsuc, ◌-ℤ◌}
use new_trs.Common.Text.{Text}
use new_trs.Loan.Money.{Money, den}
use new_trs.Loan.Money.Decimal.{fraction}
use new_trs.Loan.Date.{Date}
use new_trs.Loan.Model.{LoanPosition}

pub record StoredRow : Type 0 where
  pub account_number : Text
  pub as_of : Date
  pub loan_start_date : Date
  pub principal_outstanding : Money
  pub collectability_bi : ℤ
  pub principal_due : Money
  pub interest_due : Money
  pub penalty_due : Money
  pub branch : Option Text
  pub product : Option Text
  pub cif : Option Text
  pub contract_number : Option Text
  pub source_updated_at : Option ℕ

abbrev pub ten_decimals : ℕ
ten_decimals = 10000000000

-- The quotient to the nearest whole number, halves upwards.
unfoldable pub nearest : ℕ → ℕ → ℕ
nearest n d = (2 * n + d) / (2 * d)

-- FloatString rounds the amount without its sign.
unfoldable pub rounded : ℤ → ℕ → ℤ
rounded (pos n) d = pos (nearest (n * ten_decimals) d)
rounded (negsuc n) d = pos 0 -ℤ pos (nearest (suc n * ten_decimals) d)

unfoldable pub database_value : Money → Money
database_value x = fraction (rounded x.num (den x)) 10

unfoldable pub null_if : (Text → Bool) → Text → Option Text
null_if is_like_empty t = if is_like_empty t then none else some t

unfoldable pub datetime : (ℕ → ℕ) → Option ℕ → Option ℕ
datetime keeps none = none
datetime keeps (some t) = some (keeps t)

unfoldable pub stored_row : (Text → Bool) → (ℕ → ℕ) → LoanPosition → StoredRow
stored_row is_like_empty keeps row = record {
  account_number = row.account_number;
  as_of = row.as_of;
  loan_start_date = row.loan_start_date;
  principal_outstanding = database_value row.principal_outstanding;
  collectability_bi = row.collectability_bi;
  principal_due = database_value row.principal_due;
  interest_due = database_value row.interest_due;
  penalty_due = database_value row.penalty_due;
  branch = null_if is_like_empty row.branch;
  product = null_if is_like_empty row.product;
  cif = null_if is_like_empty row.cif;
  contract_number = null_if is_like_empty row.contract_number;
  source_updated_at = datetime keeps row.source_updated_at;
}

-- An amount too small for ten decimals is kept as zero.
smallest-lost : database_value (fraction (pos 1) 11) ≡ fraction (pos 0) 10
unfolding database_value rounded nearest
smallest-lost = refl
