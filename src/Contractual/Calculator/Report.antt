-- ===== src/Contractual/Calculator/Report.antt =====
-- internal/contractual/calculator.go: what a result of Calculate promises its reader.
use new_trs.Common.{
  ◌≡◌, refl, true, not, ◌||◌, none, ok, Bool-cases, inl, inr, refuse-eq-ok, >>=-eq-ok, ok-injective,
  invalid_input, invariant, historical_evidence, joined, foreign, arith, sym, subst, ◌∙◌, List, ◌⊎◌,
}
use new_trs.Common.Int.{ℤ}
use new_trs.Common.Sort.{sort}
use new_trs.Loan.Date
use new_trs.Loan.Model.{CollectabilityPoint, CalculationInput, CalculationResult}
use new_trs.Contractual.State.{CalculationState, validate_opening}
use new_trs.Contractual.State.Invariant.{IsSound}
use new_trs.Contractual.Repayments.{effective_repayments}
use new_trs.Contractual.Schedule.{Rounding, build_schedule, bad_parameters}
use new_trs.Contractual.Timeline.{
  collectability_at, last_value, validate_timeline, date_before, in_range,
}
use new_trs.Contractual.Calculator.{
  Ending, apply_payments, start_run, initial_state, initial_result, reconstruct, ending, calculate,
}
use new_trs.Contractual.Calculator.Ending.{ending-IsSound, finish_passes, validate_opening-in_range}

-- The balances of a result, as a state.
abbrev pub balances : CalculationResult → CalculationState
balances r = record {
  principal = r.principal_outstanding;
  principal_due = r.principal_due;
  interest_due = r.interest_due;
  unapplied = r.unapplied_amount;
}

pub record IsReport (rounding : Rounding) (input : CalculationInput) (r : CalculationResult)
    : Type 0 where
  -- No balance is negative, and what is due of the principal is part of it.
  pub sound : IsSound (balances r)
  pub dated : r.as_of ≡ input.as_of
  pub collectability : in_range r.collectability_bi ≡ true
  -- After the cutoff the schedule is the one built from the contract.
  pub schedule :
      (Date.equal input.as_of input.cutoff ≡ true)
      ⊎ (build_schedule rounding input.contractual_principal input.tenor_months
            input.flat_rate_percent input.contract_schedule
          ≡ ok r.contractual_schedule)

-- The parts of an ending that `finish` leaves alone.
record IsDraft (rounding : Rounding) (input : CalculationInput) (r : CalculationResult)
    : Type 0 where
  dated : r.as_of ≡ input.as_of
  collectability : in_range r.collectability_bi ≡ true
  schedule :
      (Date.equal input.as_of input.cutoff ≡ true)
      ⊎ (build_schedule rounding input.contractual_principal input.tenor_months
            input.flat_rate_percent input.contract_schedule
          ≡ ok r.contractual_schedule)

collectability_at-in_range :
    (opening : ℤ) (timeline : List CollectabilityPoint) (date : Date.Date) (c : ℤ)
    → collectability_at opening timeline date ≡ ok c
    → in_range c ≡ true
unfolding collectability_at
collectability_at-in_range opening timeline date c h =
    let (_, h₁) = refuse-eq-ok (not (in_range opening)) historical_evidence _ h in
    let (range, h₂) =
      refuse-eq-ok (not (in_range (last_value opening timeline date)))
        (joined historical_evidence foreign) _ h₁ in
    let same : last_value opening timeline date ≡ c = ok-injective _ c h₂ in
    rw (← same) (ground arith)

reconstruct-IsDraft :
    (rounding : Rounding) (input : CalculationInput) (e : Ending)
    → reconstruct rounding input ≡ ok e
    → IsDraft rounding input e.0
unfolding reconstruct initial_result
reconstruct-IsDraft rounding input e h =
    let timeline = sort date_before input.collectability_timeline in
    let (_, h₁) =
      refuse-eq-ok
        (bad_parameters input.contractual_principal input.tenor_months input.flat_rate_percent)
        invariant _ h in
    let (rows, built, h₂) =
      >>=-eq-ok (build_schedule rounding _ _ _ input.contract_schedule) _ h₁ in
    let (_, _, h₃) = >>=-eq-ok (validate_timeline none timeline) _ h₂ in
    let (ps, _, h₄) =
      >>=-eq-ok (effective_repayments input.repayments input.cutoff input.as_of) _ h₃ in
    let (run, _, h₅) =
      >>=-eq-ok (apply_payments input.opening.collectability_bi timeline ps (start_run input rows))
        _ h₄ in
    let (c, found, h₆) =
      >>=-eq-ok (collectability_at input.opening.collectability_bi timeline input.as_of) _ h₅ in
    subst (λ (f : Ending). IsDraft rounding input f.0) (ok-injective _ e h₆)
      (record {
        dated = refl;
        collectability =
            collectability_at-in_range input.opening.collectability_bi timeline input.as_of c found;
        schedule = inr built;
      })

ending-IsDraft :
    (rounding : Rounding) (input : CalculationInput) (e : Ending)
    → ending rounding input ≡ ok e
    → IsDraft rounding input e.0
unfolding ending
ending-IsDraft rounding input e h =
    let (_, h₁) =
      refuse-eq-ok
        (Date.is_zero input.as_of
          || Date.is_zero input.cutoff
          || Date.before input.as_of input.cutoff)
        invalid_input _ h in
    let (_, opening, h₂) = >>=-eq-ok (validate_opening input.opening) _ h₁ in
    elim (Bool-cases (Date.equal input.as_of input.cutoff)) [
      | inl same ↦
          let f : ok (initial_result input, initial_state input.opening) ≡ ok e = rw same at h₂ in
          subst (λ (g : Ending). IsDraft rounding input g.0) (ok-injective _ e f)
            (unfold initial_result in
              record {
                dated = refl;
                collectability = validate_opening-in_range input.opening opening;
                schedule = inl same;
              })
      | inr later ↦
          let f : reconstruct rounding input ≡ ok e = rw later at h₂ in
          reconstruct-IsDraft rounding input e f
    ]

-- A result of Calculate has no negative balance, at most the whole principal due, the date
-- asked for, a collectability of 1 to 5, and, off the cutoff, the schedule that
-- BuildSchedule gives.
pub calculate-IsReport :
    (rounding : Rounding) (input : CalculationInput) (r : CalculationResult)
    → calculate rounding input ≡ ok r
    → IsReport rounding input r
unfolding calculate
calculate-IsReport rounding input r h =
    let (e, found, h₁) = >>=-eq-ok (ending rounding input) _ h in
    let sound = ending-IsSound rounding input e found in
    let draft = ending-IsDraft rounding input e found in
    let same = ok-injective _ r (sym (finish_passes e.0 e.1 sound) ∙ h₁) in
    subst (IsReport rounding input) same (record {
      sound = record {
        principal_due_nonneg = sound.principal_due_nonneg;
        interest_due_nonneg = sound.interest_due_nonneg;
        unapplied_nonneg = sound.unapplied_nonneg;
        due_within = sound.due_within;
      };
      dated = draft.dated;
      collectability = draft.collectability;
      schedule = draft.schedule;
    })
