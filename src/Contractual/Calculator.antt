-- ===== src/Contractual/Calculator.antt =====
-- internal/contractual/calculator.go: Calculate. The schedule from `nextDue` on is the list of rows
-- still pending; the closures of the source, which change `state` and `result.Trace`, pass a Run.
pub mod Balances
pub mod Ending
pub mod Total
pub mod Report
use new_trs.Common.{
  ℕ, suc, ◌≡◌, Bool, true, false, not, ◌||◌, if◌then◌else◌, List, [], ◌∷◌, none, Result, ok, err,
  refuse, ◌>>◌, ◌>>=◌, invalid_input, invariant,
}
use new_trs.Common.Int.{ℤ, pos, ltb_ℤ}
use new_trs.Common.Sort.{sort}
use new_trs.Loan.Money.{Money, zero_money, add, sub, min_money, is_negative, is_zero, is_positive}
use new_trs.Loan.Date.{Date, no_date}
use new_trs.Loan.Date
use new_trs.Loan.Model.{
  Repayment, ContractualScheduleRow, CollectabilityPoint, OpeningLoanState, CalculationInput,
  CalculationTrace, CalculationResult,
}
use new_trs.Contractual.State.{CalculationState, allocate, finish, validate_opening}
use new_trs.Contractual.Repayments.{effective_repayments, allocable}
use new_trs.Contractual.Schedule.{Rounding, build_schedule, bad_parameters}
use new_trs.Contractual.Timeline.{validate_timeline, collectability_at, date_before}

pub record Run : Type 0 where
  pub state : CalculationState
  pub pending : List ContractualScheduleRow
  pub trace : CalculationTrace

-- One due row: principal is owed up to what is not due yet, interest as long as principal is left.
unfoldable pub accrue_row : ContractualScheduleRow → CalculationState → CalculationState
accrue_row r s =
    if is_positive s.principal
    then (let available = sub s.principal s.principal_due in
        record s {
          principal_due =
              if is_positive available
              then add s.principal_due (min_money r.principal available)
              else s.principal_due;
          interest_due = add s.interest_due r.interest;
        })
    else s

-- The loop of accrueThrough over the rows that are pending.
unfoldable pub accrue :
    Date → List ContractualScheduleRow → CalculationState → CalculationTrace → Run
accrue date [] s t = record { state = s; pending = []; trace = t }
accrue date (r ∷ rest) s t =
    let later =
      accrue date rest (accrue_row r s) (record t {
        periods_accrued = suc t.periods_accrued;
        last_due_date_accrued = r.due_date;
      }) in
    if Date.after r.due_date date
    then record { state = s; pending = r ∷ rest; trace = t }
    else later

unfoldable pub accrue_through : Date → Run → Run
accrue_through date run = accrue date run.pending run.state run.trace

-- The rows after the cutoff.
unfoldable pub skip_due : Date → List ContractualScheduleRow → List ContractualScheduleRow
skip_due cutoff [] = []
skip_due cutoff (r ∷ rest) = if Date.after r.due_date cutoff then r ∷ rest else skip_due cutoff rest

-- A payment of nothing is passed over.
unfoldable pub apply_amount : Money → ℤ → Date → Run → Run
apply_amount amount collectability date run = if is_zero amount then run else record run {
  state = allocate amount collectability run.state;
  trace = record (run.trace) {
    repayments_applied = suc run.trace.repayments_applied;
    last_payment_date = date;
  };
}

unfoldable pub apply_payments : ℤ → List CollectabilityPoint → List Repayment → Run → Result Run
apply_payments opening timeline [] run = ok run
apply_payments opening timeline (p ∷ rest) run = do
  let accrued = accrue_through p.date run
  collectability ← collectability_at opening timeline p.date
  apply_payments opening timeline rest (apply_amount (allocable p) collectability p.date accrued)

unfoldable pub initial_state : OpeningLoanState → CalculationState
initial_state o = record {
  principal = o.principal_outstanding;
  principal_due = o.principal_due;
  interest_due = o.interest_due;
  unapplied = zero_money;
}

unfoldable pub initial_result : CalculationInput → CalculationResult
initial_result input = record {
  as_of = input.as_of;
  principal_outstanding = zero_money;
  principal_due = zero_money;
  interest_due = zero_money;
  collectability_bi = input.opening.collectability_bi;
  unapplied_amount = zero_money;
  trace = record {
    opening = input.opening;
    periods_accrued = 0;
    repayments_applied = 0;
    last_payment_date = no_date;
    last_due_date_accrued = no_date;
  };
  contractual_schedule = [];
}

-- The opening balances, with the rows after the cutoff pending.
unfoldable pub start_run : CalculationInput → List ContractualScheduleRow → Run
start_run input schedule = record {
  state = initial_state input.opening;
  pending = skip_due input.cutoff schedule;
  trace = (initial_result input).trace;
}

abbrev pub Ending : Type 0
Ending = CalculationResult × CalculationState

-- From the cutoff to the as-of date: everything of Calculate between the checks and `finish`.
unfoldable pub reconstruct : Rounding → CalculationInput → Result Ending
reconstruct rounding input = do
  refuse (bad_parameters input.contractual_principal input.tenor_months input.flat_rate_percent)
      invariant
  schedule ←
      build_schedule rounding input.contractual_principal input.tenor_months input.flat_rate_percent
        input.contract_schedule
  let timeline = sort date_before input.collectability_timeline
  validate_timeline none timeline
  repayments ← effective_repayments input.repayments input.cutoff input.as_of
  run ←
      apply_payments input.opening.collectability_bi timeline repayments (start_run input schedule)
  let last = accrue_through input.as_of run
  collectability ← collectability_at input.opening.collectability_bi timeline input.as_of
  ok (
    record (initial_result input) {
      collectability_bi = collectability;
      trace = last.trace;
      contractual_schedule = schedule;
    },
    last.state,
  )

-- On the cutoff itself the opening balances are the answer.
unfoldable pub ending : Rounding → CalculationInput → Result Ending
ending rounding input = do
  refuse
      (Date.is_zero input.as_of
        || Date.is_zero input.cutoff
        || Date.before input.as_of input.cutoff)
      invalid_input
  validate_opening input.opening
  if Date.equal input.as_of input.cutoff
      then ok (initial_result input, initial_state input.opening)
      else reconstruct rounding input

unfoldable pub calculate : Rounding → CalculationInput → Result CalculationResult
calculate rounding input = ending rounding input >>= λ e. finish e.0 e.1
