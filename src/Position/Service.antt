-- ===== src/Position/Service.antt =====
-- internal/position/service.go: Service. The gateways, the repositories and the calculator are the
-- fields of a record; today's date in the service's location is an argument. A call that returns an
-- error returns no position. logDecision only logs.
use new_trs.Common.{
  Bool, true, false, ◌&&◌, ◌||◌, if◌then◌else◌, List, [], ◌∷◌, none, some, length, ◌==◌, Result, ok,
  err, Error, ◌>>=◌, not_found, joined, current_snapshot,
}
use new_trs.Common.Int.{ℤ, pos}
use new_trs.Common.Text.{Text, codes, trim_space}
use new_trs.Loan.Money.{Money, zero_money}
use new_trs.Loan.Date.{Date, no_date}
use new_trs.Loan.Date
use new_trs.Loan.Model.{
  mso, unset, LoanPosition, OpeningLoanState, CollectabilityPoint, ContractualInstallment,
  ContractualScheduleRow, ContractData, CalculationInput, CalculationTrace, CalculationResult,
  ResolvedPosition,
}
use new_trs.Position.Schedule.{normalize_contract_schedule}

pub record Service : Type 0 where
  pub resolve_loan : Text → Result ContractData
  pub historical_position : Text → Date → Result LoanPosition
  pub opening_state : Text → Date → Result OpeningLoanState
  pub dwh_exact_position : Text → Date → Result LoanPosition
  pub collectability_timeline : Text → Date → Date → Result (List CollectabilityPoint)
  pub snapshot_exact_position : Text → Date → Result LoanPosition
  pub calculate : CalculationInput → Result CalculationResult
  pub build_schedule :
      Money → ℤ → Money → List ContractualInstallment → Result (List ContractualScheduleRow)
  pub cutoff : Date

-- The cutoff that NewService sets.
abbrev pub service_cutoff : Date
service_cutoff = record { year = 2025; month = 10; day = 12 }

abbrev pub flat_interest_type : Text
flat_interest_type = codes "10"

-- The zero values of the records.
abbrev pub no_opening : OpeningLoanState
no_opening = record {
  account_number = [];
  interest_type = [];
  principal_outstanding = zero_money;
  principal_due = zero_money;
  interest_due = zero_money;
  penalty_due = zero_money;
  collectability_bi = pos 0;
}

abbrev pub no_trace : CalculationTrace
no_trace = record {
  opening = no_opening;
  periods_accrued = 0;
  repayments_applied = 0;
  last_payment_date = no_date;
  last_due_date_accrued = no_date;
}

abbrev pub no_position : LoanPosition
no_position = record {
  as_of = no_date;
  loan_start_date = no_date;
  account_number = [];
  principal_outstanding = zero_money;
  principal_due = zero_money;
  interest_due = zero_money;
  penalty_due = zero_money;
  collectability_bi = pos 0;
  unapplied_amount = zero_money;
  source = unset;
  branch = [];
  product = [];
  cif = [];
  contract_number = [];
  source_updated_at = none;
}

-- An answer whose position is also the actual one.
abbrev pub answer : ContractData → LoanPosition → ResolvedPosition
answer contract position = record {
  loan = contract;
  position = position;
  actual_position = position;
  trace = no_trace;
  contractual_schedule = [];
}

-- XX.XXX.XXXXX for an account of ten bytes; any other is left as it is.
format_bytes : Text → Text
format_bytes (a ∷ b ∷ c ∷ d ∷ e ∷ rest) =
    if length (a ∷ b ∷ c ∷ d ∷ e ∷ rest) == 10
    then a ∷ b ∷ b'.' ∷ c ∷ d ∷ e ∷ b'.' ∷ rest
    else a ∷ b ∷ c ∷ d ∷ e ∷ rest
format_bytes s = s

unfoldable pub format_fincloud_alt_no_to_mso : Text → Text
unfolding format_bytes
format_fincloud_alt_no_to_mso account = format_bytes (trim_space account)

-- `errors.Is(err, loan.ErrNotFound)`.
unfoldable pub is_not_found : Error → Bool
is_not_found not_found = true
is_not_found (joined a b) = is_not_found a || is_not_found b
is_not_found _ = false

-- Today's position comes from the snapshot, any other from the warehouse.
unfoldable pub exact_position : Service → Date → Text → Date → Result LoanPosition
exact_position s today account as_of =
    if Date.equal as_of today
    then s.snapshot_exact_position account as_of
    else s.dwh_exact_position account as_of

unfoldable pub opening_position : OpeningLoanState → Date → LoanPosition
opening_position o as_of = record no_position {
  as_of = as_of;
  account_number = o.account_number;
  principal_outstanding = o.principal_outstanding;
  principal_due = o.principal_due;
  interest_due = o.interest_due;
  penalty_due = o.penalty_due;
  collectability_bi = o.collectability_bi;
  source = mso;
}

-- The error of a missing position for today says so.
unfoldable pub explain : Bool → Result LoanPosition → Result LoanPosition
explain is_today (ok p) = ok p
explain is_today (err e) = err (if is_today && is_not_found e then joined current_snapshot e else e)

-- The contract with its schedule normalized, where there is evidence for one.
unfoldable pub with_schedule : ContractData → Result ContractData
with_schedule contract = elim contract.contract_schedule_evidence [
  | none ↦ ok contract
  | some evidence ↦ (do
    schedule ← normalize_contract_schedule evidence contract.tenor_months
    ok (record contract { contract_schedule = schedule }))
]
