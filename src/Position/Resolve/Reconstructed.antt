-- ===== src/Position/Resolve/Reconstructed.antt =====
-- internal/position/service.go over internal/contractual/calculator.go: the service with the program's
-- own calculator.
use new_trs.Common.{
  ◌≡◌, true, false, not, ok, refuse-eq-ok, >>=-eq-ok, ok-injective, unsupported_calculation, arith,
  subst, inl, inr,
}
use new_trs.Common.Text.{Text}
use new_trs.Loan.Money.{is_zero, equal}
use new_trs.Loan.Date.{Date}
use new_trs.Loan.Date
use new_trs.Loan.Model.{LoanPosition, OpeningLoanState, ContractData, ResolvedPosition}
use new_trs.Contractual.State.{CalculationState}
use new_trs.Contractual.State.Invariant.{IsSound}
use new_trs.Contractual.Schedule.{Rounding, build_schedule}
use new_trs.Contractual.Schedule.Rows.{sum_principal, final_balance}
use new_trs.Contractual.Schedule.Built.{build_schedule-Built, Built-pays_off}
use new_trs.Contractual.Calculator.{calculate}
use new_trs.Contractual.Calculator.Report.{calculate-IsReport}
use new_trs.Position.Schedule.{valid_schedule}
use new_trs.Position.Service.{Service, with_schedule}
use new_trs.Position.Resolve.{reconstruct, timeline_for, calculation_input, reconstructed_position}

-- The service as NewService is called by the program.
abbrev pub with_calculator : Rounding → Service → Service
with_calculator rounding s = record s {
  calculate = calculate rounding;
  build_schedule = build_schedule rounding;
}

abbrev pub position_balances : LoanPosition → CalculationState
position_balances p = record {
  principal = p.principal_outstanding;
  principal_due = p.principal_due;
  interest_due = p.interest_due;
  unapplied = p.unapplied_amount;
}

-- What is promised of a reconstructed answer.
pub record IsReliable (r : ResolvedPosition) : Type 0 where
  pub sound : IsSound (position_balances r.position)
  -- The rows ask for the plafond of the loan, and leave nothing of it.
  pub asks_for_plafond : equal (sum_principal r.contractual_schedule) r.loan.plafond_limit ≡ true
  pub leaves_nothing : is_zero (final_balance r.loan.plafond_limit r.contractual_schedule) ≡ true

-- With the program's own calculator, a reconstructed position after the cutoff has balances
-- in order, and its schedule asks for the plafond of the loan and leaves nothing of it.
pub reconstruct-IsReliable :
    (rounding : Rounding) (s : Service) (today : Date) (contract : ContractData)
    (o : OpeningLoanState) (primary : Text) (as_of : Date) (exact : LoanPosition)
    (r : ResolvedPosition)
    → Date.after as_of s.cutoff ≡ true
    → reconstruct (with_calculator rounding s) today contract o primary as_of exact ≡ ok r
    → IsReliable r
unfolding reconstruct calculation_input reconstructed_position
reconstruct-IsReliable rounding s today contract o primary as_of exact r late h =
    let t = with_calculator rounding s in
    let (c, _, h₁) = >>=-eq-ok (with_schedule contract) _ h in
    let (_, h₂) =
      refuse-eq-ok (not (valid_schedule c.tenor_months c.contract_schedule)) unsupported_calculation
        _ h₁ in
    let (points, _, h₃) = >>=-eq-ok (timeline_for t today primary as_of exact) _ h₂ in
    let input = calculation_input t c o as_of points in
    let (result, calculated, h₄) = >>=-eq-ok (calculate rounding input) _ h₃ in
    let report = calculate-IsReport rounding input result calculated in
    let apart : Date.equal as_of s.cutoff ≡ false =
      unfold Date.after Date.equal in ground (arith, late) in
    let built : build_schedule rounding c.plafond_limit c.tenor_months c.flat_rate_percent
          c.contract_schedule
        ≡ ok result.contractual_schedule =
      elim report.schedule [ inl same ↦ absurd (ground (arith, same, apart)) | inr e ↦ e ] in
    let (asks, leaves) =
      Built-pays_off rounding c.plafond_limit c.tenor_months c.flat_rate_percent c.contract_schedule
        result.contractual_schedule (build_schedule-Built rounding _ _ _ _ _ built) in
    subst IsReliable (ok-injective _ r h₄) (record {
      sound = record {
        principal_due_nonneg = report.sound.principal_due_nonneg;
        interest_due_nonneg = report.sound.interest_due_nonneg;
        unapplied_nonneg = report.sound.unapplied_nonneg;
        due_within = report.sound.due_within;
      };
      asks_for_plafond = asks;
      leaves_nothing = leaves;
    })
