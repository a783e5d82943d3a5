-- ===== src/Loan/Model.antt =====
-- internal/loan/model.go: the records that the gateways, the calculator and the position service
-- exchange. Integers are unbounded; a slice that the source compares with nil is an Option.
use new_trs.Common.{ℕ, List, Option}
use new_trs.Common.Int.{ℤ}
use new_trs.Common.Text.{Text}
use new_trs.Loan.Money.{Money}
use new_trs.Loan.Date.{Date}

-- `unset` is the empty string, the type's zero value.
pub data PositionSource : Type 0 where
  mso dwh today_snapshot reconstructed closed unset : PositionSource

pub record LoanPosition : Type 0 where
  pub as_of : Date
  pub loan_start_date : Date
  pub account_number : Text
  pub principal_outstanding : Money
  pub principal_due : Money
  pub interest_due : Money
  pub penalty_due : Money
  pub collectability_bi : ℤ
  pub unapplied_amount : Money
  pub source : PositionSource
  pub branch : Text
  pub product : Text
  pub cif : Text
  pub contract_number : Text
  -- An instant, as a count of some unit of time.
  pub source_updated_at : Option ℕ

pub record OpeningLoanState : Type 0 where
  pub account_number : Text
  pub interest_type : Text
  pub principal_outstanding : Money
  pub principal_due : Money
  pub interest_due : Money
  pub penalty_due : Money
  pub collectability_bi : ℤ

pub record CollectabilityPoint : Type 0 where
  pub date : Date
  pub value : ℤ

pub record Repayment : Type 0 where
  pub date : Date
  pub principal_component : Money
  pub interest_component : Money
  pub penalty_component : Money
  pub early_penalty_component : Money
  pub dwp_component : Money
  pub total_payment : Money
  pub journal_number : Text
  pub source_order : ℤ

pub record ContractualInstallment : Type 0 where
  pub number : ℤ
  pub due_date : Date

pub record ContractualInstallmentEvidence : Type 0 where
  pub number : ℤ
  pub raw_due_date : Text
  pub raw_payment_status : Text

pub record ContractualScheduleRow : Type 0 where
  pub number : ℤ
  pub due_date : Date
  pub principal : Money
  pub interest : Money
  pub installment : Money
  pub scheduled_balance : Money

pub record ContractData : Type 0 where
  pub primary_account : Text
  pub alternate_account : Text
  pub cif : Text
  pub customer_name : Text
  pub branch : Text
  pub product : Text
  pub plafond_limit : Money
  pub tenor_months : ℤ
  pub flat_rate_percent : Money
  pub reference_rate_percent : Money
  pub current_collectability : ℤ
  pub current_principal_due : Money
  pub current_interest_due : Money
  pub penalty_due : Money
  pub status : Text
  pub close_date : Date
  pub raw_schedule_count : ℤ
  pub contract_schedule_evidence : Option (List ContractualInstallmentEvidence)
  pub contract_schedule : List ContractualInstallment
  pub repayments : List Repayment

pub record CalculationInput : Type 0 where
  pub as_of : Date
  pub cutoff : Date
  pub contractual_principal : Money
  pub tenor_months : ℤ
  pub flat_rate_percent : Money
  pub opening : OpeningLoanState
  pub contract_schedule : List ContractualInstallment
  pub repayments : List Repayment
  pub collectability_timeline : List CollectabilityPoint

pub record CalculationTrace : Type 0 where
  pub opening : OpeningLoanState
  pub periods_accrued : ℕ
  pub repayments_applied : ℕ
  pub last_payment_date : Date
  pub last_due_date_accrued : Date

pub record CalculationResult : Type 0 where
  pub as_of : Date
  pub principal_outstanding : Money
  pub principal_due : Money
  pub interest_due : Money
  pub collectability_bi : ℤ
  pub unapplied_amount : Money
  pub trace : CalculationTrace
  pub contractual_schedule : List ContractualScheduleRow

pub record ResolvedPosition : Type 0 where
  pub loan : ContractData
  pub position : LoanPosition
  pub actual_position : LoanPosition
  pub trace : CalculationTrace
  pub contractual_schedule : List ContractualScheduleRow
