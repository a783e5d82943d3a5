-- ===== src/Examples/Data.antt =====
-- A flat loan of 1200 over three months, half repaid when the systems changed, with one payment, one
-- payment that was reversed, and one empty row after the cutoff.
use new_trs.Common.{ℕ, List, [], ◌∷◌, Result, ok, err}
use new_trs.Common.Int.{ℤ, pos, negsuc, ◌+ℤ◌, ◌-ℤ◌, ◌*ℤ◌}
use new_trs.Common.Sort.{sort, insert}
use new_trs.Common.Text.{codes}
use new_trs.Loan.Money.{
  Money, add, sub, mul, div_int, cmp, is_zero, is_negative, is_positive, exceeds,
  equal as money_equal, min_money, zero_money, money_from_int,
}
use new_trs.Loan.Date.{Date, before, after, equal as date_equal}
use new_trs.Loan.Model.{
  Repayment, ContractualInstallment, OpeningLoanState, CollectabilityPoint, CalculationInput,
}
use new_trs.Contractual.State.{
  CalculationState, pay_principal_due, pay_principal_advance, pay_interest, allocate, finish,
  validate_opening,
}
use new_trs.Contractual.Repayments.{
  zero_repayment_components, repayment_components_equal_total, exact_repayment_inverse, in_window,
  earlier, reversal_candidate, bad_reversal, judge, effective, effective_repayments,
}
use new_trs.Contractual.Schedule.{
  round, bad_parameters, not_after, check_numbering, fill_rows, period_principal, period_interest,
  build_schedule,
}
use new_trs.Contractual.Timeline.{conflicts, validate_timeline, last_value, collectability_at}
use new_trs.Contractual.Calculator.{
  accrue_row, accrue, accrue_through, skip_due, apply_amount, apply_payments, initial_state,
  initial_result, start_run, reconstruct, ending, calculate,
}

-- Everything that a run of the calculator computes with.
unfoldable pub calculator_runs : ℕ
unfolding ◌+ℤ◌ ◌-ℤ◌ ◌*ℤ◌ sort insert add sub mul div_int cmp is_zero is_negative is_positive exceeds
    money_equal min_money before after date_equal pay_principal_due pay_principal_advance
    pay_interest allocate finish validate_opening zero_repayment_components
    repayment_components_equal_total exact_repayment_inverse in_window earlier reversal_candidate
    bad_reversal judge effective effective_repayments round bad_parameters not_after check_numbering
    fill_rows period_principal period_interest build_schedule conflicts validate_timeline last_value
    collectability_at accrue_row accrue accrue_through skip_due apply_amount apply_payments
    initial_state initial_result start_run reconstruct ending calculate
calculator_runs = 0

abbrev pub units : ℕ → Money
units n = money_from_int (pos n)

abbrev pub minus : ℕ → Money
minus n = record { num = negsuc n; den_pred = 0 }

abbrev pub day : ℕ → ℕ → ℕ → Date
day y m d = record { year = y; month = m; day = d }

abbrev pub cutoff : Date
cutoff = day 2025 10 12

abbrev pub year_end : Date
year_end = day 2025 12 31

abbrev pub installments : List ContractualInstallment
installments =
    record { number = pos 2; due_date = day 2025 11 20 }
    ∷ record { number = pos 1; due_date = day 2025 10 20 }
    ∷ record { number = pos 3; due_date = day 2025 12 20 }
    ∷ []

abbrev pub payment : Date → ℤ → Money → Money → Money → Repayment
payment date order principal interest total = record {
  date = date;
  principal_component = principal;
  interest_component = interest;
  penalty_component = zero_money;
  early_penalty_component = zero_money;
  dwp_component = zero_money;
  total_payment = total;
  journal_number = [];
  source_order = order;
}

-- A payment of 412, one of 100 that is reversed at once, and an empty row.
abbrev pub repayments : List Repayment
repayments =
    payment (day 2025 11 3) (pos 2) (minus 99) zero_money (minus 99)
    ∷ payment (day 2025 11 3) (pos 1) (units 100) zero_money (units 100)
    ∷ payment (day 2025 11 25) (pos 1) (units 400) (units 12) (units 412)
    ∷ payment (day 2025 12 1) (pos 1) zero_money zero_money zero_money
    ∷ payment (day 2025 9 1) (pos 1) (units 50) zero_money (units 50)
    ∷ []

abbrev pub opening : OpeningLoanState
opening = record {
  account_number = codes "1001";
  interest_type = codes "10";
  principal_outstanding = units 600;
  principal_due = units 100;
  interest_due = units 5;
  penalty_due = zero_money;
  collectability_bi = pos 1;
}

abbrev pub timeline : List CollectabilityPoint
timeline =
    record { date = day 2025 12 5; value = pos 3 }
    ∷ record { date = day 2025 11 1; value = pos 2 }
    ∷ []

abbrev pub input : CalculationInput
input = record {
  as_of = year_end;
  cutoff = cutoff;
  contractual_principal = units 1200;
  tenor_months = pos 3;
  flat_rate_percent = units 12;
  opening = opening;
  contract_schedule = installments;
  repayments = repayments;
  collectability_timeline = timeline;
}

abbrev pub state : CalculationState
state = record {
  principal = units 600;
  principal_due = units 100;
  interest_due = units 5;
  unapplied = zero_money;
}

abbrev pub value_or {ℓ} : {A : Type ℓ} → A → Result A → A
value_or a (ok b) = b
value_or a (err e) = a
