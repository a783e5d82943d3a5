-- ===== src/Contractual/Calculator/Ending.antt =====
-- internal/contractual/calculator.go: what comes out of Calculate.
use new_trs.Common.{
  ◌≡◌, true, false, ◌||◌, none, ok, is_ok, All-imp, Bool-cases, inl, inr, refuse-eq-ok, >>=-eq-ok,
  ok-injective, invalid_input, invariant, arith, subst,
}
use new_trs.Loan.Money.{is_negative}
use new_trs.Loan.Money.Order.{nonneg_of_within, zero_money_nonneg}
use new_trs.Loan.Date
use new_trs.Loan.Model.{OpeningLoanState, CalculationInput, CalculationResult}
use new_trs.Contractual.State.{CalculationState, finish, validate_opening}
use new_trs.Contractual.State.Invariant.{IsSound}
use new_trs.Contractual.Repayments.{allocable, effective_repayments}
use new_trs.Contractual.Repayments.Kept.{effective_repayments-Kept}
use new_trs.Contractual.Schedule.{Rounding, build_schedule, bad_parameters}
use new_trs.Contractual.Timeline.{collectability_at, validate_timeline, in_range}
use new_trs.Contractual.Calculator.{
  Ending, apply_payments, initial_state, initial_result, start_run, reconstruct, ending, calculate,
}
use new_trs.Contractual.Calculator.Balances.{
  apply_payments-IsOrderly, accrue_through-IsOrderly, skip_due-All, Built-AsksNonneg,
}

pub validate_opening-IsSound :
    (o : OpeningLoanState) → validate_opening o ≡ ok tt → IsSound (initial_state o)
unfolding validate_opening initial_state
validate_opening-IsSound o h = record {
  principal_due_nonneg = ground arith;
  interest_due_nonneg = ground arith;
  unapplied_nonneg = zero_money_nonneg;
  due_within = ground arith;
}

pub validate_opening-in_range :
    (o : OpeningLoanState) → validate_opening o ≡ ok tt → in_range o.collectability_bi ≡ true
unfolding validate_opening
validate_opening-in_range o h = ground arith

-- Balances in order pass the check of the ending state, and are reported.
pub finish_passes :
    (r : CalculationResult) (s : CalculationState)
    → IsSound s
    → finish r s
      ≡ ok (record r {
        principal_outstanding = s.principal;
        principal_due = s.principal_due;
        interest_due = s.interest_due;
        unapplied_amount = s.unapplied;
      })
unfolding finish
finish_passes r s v = rw (
  nonneg_of_within s.principal_due s.principal v.principal_due_nonneg v.due_within,
  v.principal_due_nonneg,
  v.interest_due_nonneg,
  v.unapplied_nonneg,
  v.due_within,
  finish,
)

reconstruct-IsSound :
    (rounding : Rounding) (input : CalculationInput) (e : Ending)
    → IsSound (initial_state input.opening)
    → reconstruct rounding input ≡ ok e
    → IsSound e.1
unfolding reconstruct start_run
reconstruct-IsSound rounding input e v h =
    let (_, h₁) =
      refuse-eq-ok
        (bad_parameters input.contractual_principal input.tenor_months input.flat_rate_percent)
        invariant _ h in
    let (rows, built, h₂) =
      >>=-eq-ok (build_schedule rounding _ _ _ input.contract_schedule) _ h₁ in
    let (_, _, h₃) = >>=-eq-ok (validate_timeline none _) _ h₂ in
    let (ps, kept, h₄) =
      >>=-eq-ok (effective_repayments input.repayments input.cutoff input.as_of) _ h₃ in
    let (run, ran, h₅) = >>=-eq-ok (apply_payments input.opening.collectability_bi _ ps _) _ h₄ in
    let (c, _, h₆) =
      >>=-eq-ok (collectability_at input.opening.collectability_bi _ input.as_of) _ h₅ in
    let payable =
      All-imp _ (λ p. is_negative (allocable p) ≡ false) (λ p q. q.1.allocable_nonneg) ps
        (effective_repayments-Kept input.repayments input.cutoff input.as_of ps kept) in
    let last = accrue_through-IsOrderly input.as_of run (
      apply_payments-IsOrderly input.opening.collectability_bi _ ps _ run payable
        (record {
          sound = v;
          rows = skip_due-All input.cutoff rows (Built-AsksNonneg rounding input rows built);
        })
        ran) in
    subst (λ (f : Ending). IsSound f.1) (ok-injective _ e h₆) last.sound

-- Whatever Calculate computes up to its last check is in order.
pub ending-IsSound :
    (rounding : Rounding) (input : CalculationInput) (e : Ending)
    → ending rounding input ≡ ok e
    → IsSound e.1
unfolding ending
ending-IsSound rounding input e h =
    let (_, h₁) =
      refuse-eq-ok
        (Date.is_zero input.as_of
          || Date.is_zero input.cutoff
          || Date.before input.as_of input.cutoff)
        invalid_input _ h in
    let (_, opening, h₂) = >>=-eq-ok (validate_opening input.opening) _ h₁ in
    let v = validate_opening-IsSound input.opening opening in
    elim (Bool-cases (Date.equal input.as_of input.cutoff)) [
      | inl same ↦
          let f : ok (initial_result input, initial_state input.opening) ≡ ok e = rw same at h₂ in
          subst (λ (g : Ending). IsSound g.1) (ok-injective _ e f) v
      | inr later ↦
          let f : reconstruct rounding input ≡ ok e = rw later at h₂ in
          reconstruct-IsSound rounding input e v f
    ]

-- Once Calculate has reached its last step, the check of the ending state does not refuse:
-- it only guards against states that cannot occur.
pub ending-is_ok :
    (rounding : Rounding) (input : CalculationInput) (e : Ending)
    → ending rounding input ≡ ok e
    → is_ok (calculate rounding input) ≡ true
unfolding calculate
ending-is_ok rounding input e h =
    rw (h, calculate) (rw (finish_passes e.0 e.1 (ending-IsSound rounding input e h)))
