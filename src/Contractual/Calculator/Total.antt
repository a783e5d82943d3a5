-- ===== src/Contractual/Calculator/Total.antt =====
-- internal/contractual/calculator.go: Calculate returns a result whenever its four sources are usable.
use new_trs.Common.{
  ◌≡◌, true, false, ◌||◌, List, [], ◌∷◌, none, Result, ok, err, is_ok, Bool-cases, inl, inr, refl,
  arith, ◌∙◌,
}
use new_trs.Common.Int.{ℤ}
use new_trs.Common.Sort.{sort}
use new_trs.Loan.Date
use new_trs.Loan.Model.{Repayment, CollectabilityPoint, CalculationInput}
use new_trs.Contractual.State.{validate_opening}
use new_trs.Contractual.Repayments.{effective_repayments}
use new_trs.Contractual.Schedule.{Rounding, build_schedule, bad_parameters}
use new_trs.Contractual.Timeline.{collectability_at, validate_timeline, date_before, in_range}
use new_trs.Contractual.Timeline.Lookup.{collectability_at-is_ok}
use new_trs.Contractual.Calculator.{
  Run, apply_payments, initial_state, initial_result, start_run, reconstruct, ending, calculate,
}
use new_trs.Contractual.Calculator.Ending.{
  ending-is_ok, validate_opening-in_range, validate_opening-IsSound, finish_passes,
}

-- A value of a successful result.
is_ok_value {ℓ} : {A : Type ℓ} (r : Result A) → is_ok r ≡ true → (a : A) × (r ≡ ok a)
is_ok_value (ok a) h = (a, refl)
is_ok_value (err e) h = absurd (ground arith)

apply_payments-is_ok :
    (opening : ℤ) (timeline : List CollectabilityPoint) (ps : List Repayment) (run : Run)
    → in_range opening ≡ true
    → validate_timeline none timeline ≡ ok tt
    → is_ok (apply_payments opening timeline ps run) ≡ true
unfolding apply_payments
apply_payments-is_ok opening timeline [] run r h = refl
apply_payments-is_ok opening timeline (p ∷ ps) run r h =
    let (c, e) =
      is_ok_value (collectability_at opening timeline p.date)
        (collectability_at-is_ok opening timeline p.date r h) in
    rw (e, apply_payments) (apply_payments-is_ok opening timeline ps _ r h)

-- What Calculate needs of its sources.
pub record IsUsable (rounding : Rounding) (input : CalculationInput) : Type 0 where
  pub dates :
      (Date.is_zero input.as_of
        || Date.is_zero input.cutoff
        || Date.before input.as_of input.cutoff)
      ≡ false
  pub opening : validate_opening input.opening ≡ ok tt
  pub parameters :
      bad_parameters input.contractual_principal input.tenor_months input.flat_rate_percent ≡ false
  pub schedule :
      is_ok (
        build_schedule rounding input.contractual_principal input.tenor_months
          input.flat_rate_percent input.contract_schedule)
      ≡ true
  pub timeline : validate_timeline none (sort date_before input.collectability_timeline) ≡ ok tt
  pub repayments : is_ok (effective_repayments input.repayments input.cutoff input.as_of) ≡ true

reconstruct-is_ok :
    (rounding : Rounding) (input : CalculationInput)
    → IsUsable rounding input
    → is_ok (reconstruct rounding input) ≡ true
unfolding reconstruct
reconstruct-is_ok rounding input u =
    let range = validate_opening-in_range input.opening u.opening in
    let (rows, built) = is_ok_value _ u.schedule in
    let (ps, kept) = is_ok_value _ u.repayments in
    let (run, ran) = is_ok_value _ (
      apply_payments-is_ok input.opening.collectability_bi
        (sort date_before input.collectability_timeline) ps (start_run input rows) range
        u.timeline) in
    let (c, found) = is_ok_value _ (
      collectability_at-is_ok input.opening.collectability_bi
        (sort date_before input.collectability_timeline) input.as_of range u.timeline) in
    rw (u.parameters, built, u.timeline, kept, ran, found, reconstruct)

-- Calculate returns a result whenever the dates and the opening are valid, the contract can
-- be scheduled, the timeline is consistent and the repayments are accepted.
pub calculate-is_ok :
    (rounding : Rounding) (input : CalculationInput)
    → IsUsable rounding input
    → is_ok (calculate rounding input) ≡ true
calculate-is_ok rounding input u =
    let (e, h) = is_ok_value (ending rounding input) ending_found in ending-is_ok rounding input e h
  where
    ending_found : is_ok (ending rounding input) ≡ true
    ending_found =
        unfold ending in
        elim (Bool-cases (Date.equal input.as_of input.cutoff)) [
          | inl same ↦ rw (u.dates, u.opening, same, ending)
          | inr later ↦ rw (u.dates, u.opening, later, ending) (reconstruct-is_ok rounding input u)
        ]

-- On the cutoff itself, with valid dates and a valid opening, Calculate returns the opening
-- balances unchanged, with nothing accrued or applied, whatever the other inputs hold.
pub calculate_at_cutoff :
    (rounding : Rounding) (input : CalculationInput)
    → (Date.is_zero input.as_of
        || Date.is_zero input.cutoff
        || Date.before input.as_of input.cutoff)
      ≡ false
    → validate_opening input.opening ≡ ok tt
    → Date.equal input.as_of input.cutoff ≡ true
    → calculate rounding input
      ≡ ok (record (initial_result input) {
        principal_outstanding = input.opening.principal_outstanding;
        principal_due = input.opening.principal_due;
        interest_due = input.opening.interest_due;
      })
unfolding calculate ending
calculate_at_cutoff rounding input d o same =
    let passes =
      finish_passes (initial_result input) _ (validate_opening-IsSound input.opening o) in
    rw (d, o, same, ending, calculate) (passes ∙ unfold initial_state initial_result in refl)
