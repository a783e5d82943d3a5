-- ===== src/Examples/Calculations.antt =====
-- The calculator at the example, and its theorems there.
use new_trs.Common.{◌≡◌, refl, true, List, [], none, is_ok, All, keep}
use new_trs.Common.Int.{pos}
use new_trs.Common.Sort.{sort}
use new_trs.Loan.Money.{equal, sub}
use new_trs.Loan.Model.{ContractualScheduleRow, CalculationResult, Repayment}
use new_trs.Contractual.State.{allocate}
use new_trs.Contractual.State.Invariant.{IsSound, allocate-IsSound, allocate-net_debt, net_debt}
use new_trs.Contractual.State.Priority.{FollowsOrder, allocate-FollowsOrder}
use new_trs.Contractual.Repayments.{effective_repayments, in_window}
use new_trs.Contractual.Repayments.Kept.{IsEffective, effective_repayments-Kept}
use new_trs.Contractual.Repayments.Net.{total, effective_repayments-total}
use new_trs.Contractual.Schedule.{build_schedule}
use new_trs.Contractual.Schedule.Built.{IsSchedule, build_schedule-IsSchedule}
use new_trs.Contractual.Schedule.Exact.{build_schedule_exact-is_ok}
use new_trs.Contractual.Timeline.{last_value, date_before, collectability_at}
use new_trs.Contractual.Timeline.Lookup.{
  value_of_last, not_later, last_value-value_of_last, collectability_at-is_ok,
}
use new_trs.Contractual.Calculator.{Ending, ending, calculate, initial_result, initial_state}
use new_trs.Contractual.Calculator.Ending.{ending-is_ok}
use new_trs.Contractual.Calculator.Total.{IsUsable, calculate-is_ok}
use new_trs.Contractual.Calculator.Report.{IsReport, calculate-IsReport}
use new_trs.Examples.Data.{
  input, cutoff, year_end, installments, repayments, timeline, state, units, day, value_or,
  calculator_runs,
}

input-IsUsable : IsUsable none input
unfolding calculator_runs
input-IsUsable = record {
  dates = refl;
  opening = refl;
  parameters = refl;
  schedule = refl;
  timeline = refl;
  repayments = refl;
}

calculate-IsOk_example : is_ok (calculate none input) ≡ true
calculate-IsOk_example = calculate-is_ok none input input-IsUsable

abbrev result : CalculationResult
result = value_or (initial_result input) (calculate none input)

calculate-IsReport_example : IsReport none input result
unfolding calculator_runs
calculate-IsReport_example = calculate-IsReport none input result refl

-- 1200 over three months at 12 percent: 400 and 12 a month. The payment of 412 meets 5 and two months
-- of interest first; 383 go to the principal of 600. December's interest comes after it.
result_balances :
    (equal result.principal_outstanding (units 217) ≡ true)
    × (equal result.interest_due (units 12) ≡ true)
    × (result.trace.periods_accrued ≡ 3)
    × (result.trace.repayments_applied ≡ 1)
    × (result.collectability_bi ≡ pos 3)
unfolding calculator_runs
result_balances = (refl, refl, refl, refl, refl)

abbrev drafted : Ending
drafted = value_or (initial_result input, initial_state input.opening) (ending none input)

ending-IsOk_example : is_ok (calculate none input) ≡ true
unfolding calculator_runs
ending-IsOk_example = ending-is_ok none input drafted refl

state-IsSound : IsSound state
unfolding calculator_runs
state-IsSound = record {
  principal_due_nonneg = refl;
  interest_due_nonneg = refl;
  unapplied_nonneg = refl;
  due_within = refl;
}

allocate-IsSound_example : IsSound (allocate (units 700) (pos 1) state)
unfolding calculator_runs
allocate-IsSound_example = allocate-IsSound (units 700) (pos 1) state refl state-IsSound

allocate-net_debt_example :
    equal (net_debt (allocate (units 700) (pos 3) state)) (sub (net_debt state) (units 700)) ≡ true
allocate-net_debt_example = allocate-net_debt (units 700) (pos 3) state

allocate-FollowsOrder_example : FollowsOrder (pos 2) state (allocate (units 3) (pos 2) state)
unfolding calculator_runs
allocate-FollowsOrder_example = allocate-FollowsOrder (units 3) (pos 2) state refl state-IsSound

abbrev kept : List Repayment
kept = value_or [] (effective_repayments repayments cutoff year_end)

effective_repayments-Kept_example :
    All (λ p. (in_window cutoff year_end p ≡ true) × IsEffective p) kept
unfolding calculator_runs
effective_repayments-Kept_example = effective_repayments-Kept repayments cutoff year_end kept refl

effective_repayments-total_example :
    equal (total kept) (total (keep (in_window cutoff year_end) repayments)) ≡ true
unfolding calculator_runs
effective_repayments-total_example = effective_repayments-total repayments cutoff year_end kept refl

abbrev rows : List ContractualScheduleRow
rows = value_or [] (build_schedule none (units 1000) (pos 3) (units 12) installments)

build_schedule-IsSchedule_example : IsSchedule (units 1000) (pos 3) rows
unfolding calculator_runs
build_schedule-IsSchedule_example =
    build_schedule-IsSchedule none (units 1000) (pos 3) (units 12) installments rows refl

build_schedule_exact-IsOk_example :
    is_ok (build_schedule none (units 1000) (pos 3) (units 12) installments) ≡ true
unfolding calculator_runs
build_schedule_exact-IsOk_example =
    build_schedule_exact-is_ok (units 1000) (pos 3) (units 12) installments refl refl refl

last_value-value_of_last_example :
    last_value (pos 1) (sort date_before timeline) year_end
    ≡ value_of_last (pos 1) (keep (not_later year_end) (sort date_before timeline))
unfolding calculator_runs
last_value-value_of_last_example =
    last_value-value_of_last (pos 1) (sort date_before timeline) year_end ((refl, tt), (tt, tt))

collectability_at-IsOk_example :
    is_ok (collectability_at (pos 1) (sort date_before timeline) (day 2025 11 15)) ≡ true
unfolding calculator_runs
collectability_at-IsOk_example =
    collectability_at-is_ok (pos 1) (sort date_before timeline) (day 2025 11 15) refl refl
