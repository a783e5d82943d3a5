-- ===== src/Position/Resolve.antt =====
-- internal/position/service.go: resolvePosition and GetLoanPosition, stage by stage: the checks, the
-- closed loan, the exact position after the cutoff, the balances from before the migration, and the
-- reconstruction.
pub mod Actual
pub mod Answers
pub mod Reconstructed
pub mod Sources
use new_trs.Common.{
  ◌≡◌, Bool, true, false, not, ◌&&◌, ◌||◌, if◌then◌else◌, List, [], ◌∷◌, ◌++◌, Option, none, some,
  Result, ok, err, refuse, ◌>>◌, ◌>>=◌, invalid_input, invariant, historical_evidence,
  unsupported_calculation,
}
use new_trs.Common.Int.{pos, negsuc}
use new_trs.Common.Text.{Text, trim_space, is_empty, eq_text}
use new_trs.Loan.Date.{Date, add_days}
use new_trs.Loan.Date
use new_trs.Loan.Model.{
  PositionSource, reconstructed, closed, LoanPosition, OpeningLoanState, CollectabilityPoint,
  ContractualScheduleRow, ContractData, CalculationInput, CalculationResult, ResolvedPosition,
}
use new_trs.Position.Schedule.{normalize_contract_schedule, valid_schedule}
use new_trs.Position.Service.{
  Service, no_position, answer, flat_interest_type, format_fincloud_alt_no_to_mso, exact_position,
  opening_position, explain, with_schedule,
}

-- The timeline up to yesterday, and today's value from the exact position.
unfoldable pub timeline_for :
    Service → Date → Text → Date → LoanPosition → Result (List CollectabilityPoint)
timeline_for s today primary as_of exact =
    let is_today = Date.equal as_of today in
    let end = if is_today then add_days today (negsuc 0) else as_of in
    s.collectability_timeline primary (add_days s.cutoff (pos 1)) end >>= λ points. ok (
      if is_today
      then points ++ record { date = today; value = exact.collectability_bi } ∷ []
      else points)

unfoldable pub calculation_input :
    Service → ContractData → OpeningLoanState → Date → List CollectabilityPoint → CalculationInput
calculation_input s contract opening as_of timeline = record {
  as_of = as_of;
  cutoff = s.cutoff;
  contractual_principal = contract.plafond_limit;
  tenor_months = contract.tenor_months;
  flat_rate_percent = contract.flat_rate_percent;
  opening = opening;
  contract_schedule = contract.contract_schedule;
  repayments = contract.repayments;
  collectability_timeline = timeline;
}

unfoldable pub reconstructed_position :
    Date → Text → LoanPosition → CalculationResult → LoanPosition
reconstructed_position as_of primary exact c = record no_position {
  as_of = as_of;
  loan_start_date = exact.loan_start_date;
  account_number = primary;
  principal_outstanding = c.principal_outstanding;
  principal_due = c.principal_due;
  interest_due = c.interest_due;
  collectability_bi = c.collectability_bi;
  unapplied_amount = c.unapplied_amount;
  source = reconstructed;
}

unfoldable pub reconstruct :
    Service
    → Date
    → ContractData
    → OpeningLoanState
    → Text
    → Date
    → LoanPosition
    → Result ResolvedPosition
reconstruct s today contract opening primary as_of exact = do
  scheduled ← with_schedule contract
  refuse (not (valid_schedule scheduled.tenor_months scheduled.contract_schedule))
      unsupported_calculation
  timeline ← timeline_for s today primary as_of exact
  calculation ← s.calculate (calculation_input s scheduled opening as_of timeline)
  ok (record {
    loan = scheduled;
    position = reconstructed_position as_of primary exact calculation;
    actual_position = exact;
    trace = calculation.trace;
    contractual_schedule = calculation.contractual_schedule;
  })

-- On the cutoff the opening balances, after it the exact position of a loan that is not flat.
unfoldable pub from_opening :
    Service
    → Date
    → ContractData
    → OpeningLoanState
    → Text
    → Date
    → LoanPosition
    → Result ResolvedPosition
from_opening s today contract opening primary as_of exact =
    if Date.equal as_of s.cutoff
    then ok (answer contract (opening_position opening as_of))
    else if not (eq_text opening.interest_type flat_interest_type)
    then ok (answer contract exact)
    else reconstruct s today contract opening primary as_of exact

-- A loan from before the migration, by its account in the old system.
unfoldable pub legacy :
    Service → Date → ContractData → Text → Date → LoanPosition → Result ResolvedPosition
legacy s today contract primary as_of exact = do
  let alternate = trim_space contract.alternate_account
  refuse (is_empty alternate) historical_evidence
  let account = format_fincloud_alt_no_to_mso alternate
  if Date.before as_of s.cutoff
      then (s.historical_position account as_of >>= λ p.
          ok (answer contract (record p { account_number = primary })))
      else (s.opening_state account s.cutoff >>= λ o.
          from_opening s today contract (record o { account_number = primary }) primary as_of exact)

-- After the cutoff there must be an exact position; a loan begun after it is answered by that alone.
unfoldable pub after_cutoff : Service → Date → ContractData → Text → Date → Result ResolvedPosition
after_cutoff s today contract primary as_of = do
  exact ← explain (Date.equal as_of today) (exact_position s today primary as_of)
  refuse (Date.is_zero exact.loan_start_date || Date.after exact.loan_start_date as_of)
      historical_evidence
  if Date.after exact.loan_start_date s.cutoff
      then ok (answer contract exact)
      else legacy s today contract primary as_of exact

unfoldable pub is_closed : ContractData → Date → Bool
is_closed contract as_of =
    not (Date.is_zero contract.close_date) && not (Date.after contract.close_date as_of)

unfoldable pub closed_position : ContractData → Text → Date → LoanPosition
closed_position contract primary as_of = record no_position {
  as_of = as_of;
  account_number = primary;
  collectability_bi = contract.current_collectability;
  source = closed;
}

unfoldable pub resolve_contract : Service → Date → ContractData → Date → Result ResolvedPosition
resolve_contract s today contract as_of = do
  let primary = trim_space contract.primary_account
  refuse (is_empty primary) invariant
  if is_closed contract as_of
      then ok (answer contract (closed_position contract primary as_of))
      else if Date.after as_of s.cutoff
      then after_cutoff s today contract primary as_of
      else legacy s today contract primary as_of no_position

unfoldable pub resolve_position : Service → Date → Text → Date → Result ResolvedPosition
resolve_position s today account as_of = do
  let wanted = trim_space account
  refuse (is_empty wanted || Date.is_zero as_of) invalid_input
  refuse (Date.after as_of today) invalid_input
  contract ← s.resolve_loan wanted
  resolve_contract s today contract as_of

unfoldable pub is_reconstructed : PositionSource → Bool
is_reconstructed reconstructed = true
is_reconstructed _ = false

abbrev pub or_none : Result (List ContractualScheduleRow) → List ContractualScheduleRow
or_none (ok rows) = rows
or_none (err e) = []

-- The rows for display; where they cannot be built there are none.
unfoldable pub display_schedule : Service → ContractData → List ContractualScheduleRow
display_schedule s contract = elim contract.contract_schedule_evidence [
  | none ↦ []
  | some [] ↦ []
  | some (e ∷ es) ↦ or_none (
      normalize_contract_schedule (e ∷ es) contract.tenor_months >>= λ is.
      s.build_schedule contract.plafond_limit contract.tenor_months contract.flat_rate_percent is)
]

unfoldable pub get_loan_position : Service → Date → Text → Date → Result ResolvedPosition
get_loan_position s today account as_of = resolve_position s today account as_of >>= λ r. ok (
    if is_reconstructed r.position.source
    then r
    else record r { contractual_schedule = display_schedule s r.loan })
