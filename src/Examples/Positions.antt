-- ===== src/Examples/Positions.antt =====
-- The position service over small gateways, and its theorems there.
use new_trs.Common.{
  ℕ, ◌≡◌, refl, true, List, [], ◌∷◌, none, some, ok, err, is_ok, Result, not_found, foreign,
}
use new_trs.Common.Int.{pos}
use new_trs.Common.Text.{Text, codes, trim_space, is_empty, eq_text, is_digit}
use new_trs.Loan.Date.{Date, no_date, add_days, next_day, previous_day, days_in}
use new_trs.Loan.Date.Text.{parse_date}
use new_trs.Loan.Model.{
  LoanPosition, ContractData, ContractualInstallment, ContractualInstallmentEvidence, dwh,
  ResolvedPosition,
}
use new_trs.Contractual.Schedule.{build_schedule}
use new_trs.Contractual.Calculator.{calculate}
use new_trs.Position.Schedule.{
  member, date_part, collect, out_of_order, check_sequence, normalize_contract_schedule, valid_from,
  valid_schedule,
}
use new_trs.Position.Schedule.Agreement.{valid_schedule-build_schedule, normalize-valid_schedule}
use new_trs.Position.Service.{
  Service, no_position, answer, format_fincloud_alt_no_to_mso, exact_position, explain,
  with_schedule, is_not_found, opening_position,
}
use new_trs.Position.Resolve.{
  timeline_for, calculation_input, reconstructed_position, reconstruct, from_opening, legacy,
  after_cutoff, is_closed, closed_position, resolve_contract, resolve_position, get_loan_position,
}
use new_trs.Position.Resolve.Sources.{
  LateSources, other_snapshot, other_late_sources, resolve_position-snapshot, resolve_position-late,
}
use new_trs.Position.Resolve.Answers.{Answered, resolve_position-Answered}
use new_trs.Position.Resolve.Reconstructed.{IsReliable, with_calculator, reconstruct-IsReliable}
use new_trs.Examples.Data.{
  calculator_runs, units, day, cutoff, year_end, opening, repayments, timeline, value_or,
}

-- Everything that a run of the service computes with.
service_runs : ℕ
unfolding calculator_runs trim_space is_empty eq_text is_digit add_days next_day previous_day
    days_in parse_date member date_part collect out_of_order check_sequence
    normalize_contract_schedule valid_from valid_schedule format_fincloud_alt_no_to_mso
    exact_position explain with_schedule is_not_found opening_position timeline_for
    calculation_input reconstructed_position reconstruct from_opening legacy after_cutoff is_closed
    closed_position resolve_contract resolve_position get_loan_position
service_runs = 0

abbrev row : ℕ → Text → ContractualInstallmentEvidence
row n date = record { number = pos n; raw_due_date = date; raw_payment_status = [] }

abbrev evidence : List ContractualInstallmentEvidence
evidence =
    row 0 []
    ∷ row 2 (codes "2025-11-20 00:00:00")
    ∷ row 1 (codes "2025-10-20")
    ∷ row 3 (codes " 2025-12-20")
    ∷ []

abbrev ordered : List ContractualInstallment
ordered =
    record { number = pos 1; due_date = day 2025 10 20 }
    ∷ record { number = pos 2; due_date = day 2025 11 20 }
    ∷ record { number = pos 3; due_date = day 2025 12 20 }
    ∷ []

abbrev contract : ContractData
contract = record {
  primary_account = codes "1001";
  alternate_account = codes "0123456789";
  cif = codes "7";
  customer_name = [];
  branch = [];
  product = [];
  plafond_limit = units 1200;
  tenor_months = pos 3;
  flat_rate_percent = units 12;
  reference_rate_percent = units 12;
  current_collectability = pos 1;
  current_principal_due = units 0;
  current_interest_due = units 0;
  penalty_due = units 0;
  status = [];
  close_date = no_date;
  raw_schedule_count = pos 4;
  contract_schedule_evidence = some evidence;
  contract_schedule = [];
  repayments = repayments;
}

abbrev exact : LoanPosition
exact = record no_position {
  as_of = year_end;
  loan_start_date = day 2024 1 15;
  account_number = codes "1001";
  principal_outstanding = units 217;
  source = dwh;
}

abbrev service : Service
service = record {
  resolve_loan = λ account. if_known account;
  historical_position = λ account date. ok exact;
  opening_state = λ account date. ok opening;
  dwh_exact_position = λ account date. ok exact;
  collectability_timeline = λ account start end. ok timeline;
  snapshot_exact_position = λ account date. err not_found;
  calculate = calculate none;
  build_schedule = build_schedule none;
  cutoff = cutoff;
}
  where
    if_known : Text → Result ContractData
    if_known [] = err not_found
    if_known (c ∷ s) = ok contract

abbrev today : Date
today = day 2026 1 5

abbrev resolved : ResolvedPosition
resolved =
    value_or (answer contract exact) (resolve_position service today (codes " 1001") year_end)

resolve_position-Answered_example : Answered service today (codes " 1001") year_end resolved
unfolding service_runs
resolve_position-Answered_example =
    resolve_position-Answered service today (codes " 1001") year_end resolved refl

resolve_position-snapshot_example :
    resolve_position
      (other_snapshot service (λ account date. err foreign) today)
      today
      (codes "1001")
      year_end
    ≡ resolve_position service today (codes "1001") year_end
unfolding service_runs
resolve_position-snapshot_example =
    resolve_position-snapshot service (λ account date. err foreign) today (codes "1001") year_end
      refl

abbrev no_late_sources : LateSources
no_late_sources = record {
  dwh = λ account date. err foreign;
  snapshot = λ account date. err foreign;
  timeline = λ account start end. err foreign;
  calculation = λ input. err foreign;
}

resolve_position-late_example :
    resolve_position
      (other_late_sources service no_late_sources today)
      today
      (codes "1001")
      (day 2025 9 30)
    ≡ resolve_position service today (codes "1001") (day 2025 9 30)
unfolding service_runs
resolve_position-late_example =
    resolve_position-late service no_late_sources today (codes "1001") (day 2025 9 30) refl

abbrev reconstructed_answer : ResolvedPosition
reconstructed_answer = value_or (answer contract exact) (
    reconstruct (with_calculator none service) today contract opening (codes "1001") year_end exact)

reconstruct-IsReliable_example : IsReliable reconstructed_answer
unfolding service_runs
reconstruct-IsReliable_example =
    reconstruct-IsReliable none service today contract opening (codes "1001") year_end exact
      reconstructed_answer refl refl

valid_schedule-build_schedule_example :
    is_ok (build_schedule none (units 1000) (pos 3) (units 12) ordered) ≡ true
unfolding service_runs
valid_schedule-build_schedule_example =
    valid_schedule-build_schedule (units 1000) (pos 3) (units 12) ordered refl refl

normalize-valid_schedule_example : valid_schedule (pos 3) ordered ≡ true
unfolding service_runs
normalize-valid_schedule_example =
    normalize-valid_schedule evidence (pos 3) ordered refl refl (refl, (refl, (refl, tt)))
