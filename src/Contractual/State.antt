-- ===== src/Contractual/State.antt =====
-- internal/contractual/calculator.go: the running balances (calculationState), how a payment is
-- allocated to them, and the checks at both ends (validateOpening, finish).
pub mod Units
pub mod Invariant
pub mod Priority
use new_trs.Common.{
  ◌≡◌, Bool, true, false, ◌||◌, if◌then◌else◌, Result, ok, err, invariant, refuse, ◌>>◌, ◌>>=◌,
}
use new_trs.Common.Int.{ℤ, pos, ltb_ℤ}
use new_trs.Loan.Money.{Money, zero_money, add, sub, min_money, is_negative, exceeds}
use new_trs.Loan.Model.{OpeningLoanState, CalculationResult}

pub record CalculationState : Type 0 where
  pub principal : Money
  pub principal_due : Money
  pub interest_due : Money
  pub unapplied : Money

-- What is left of the payment, and the new state.
abbrev pub Paid : Type 0
Paid = Money × CalculationState

unfoldable pub pay_principal_due : Money → CalculationState → Paid
pay_principal_due payment s =
    let paid = min_money payment s.principal_due in
    (
      sub payment paid,
      record s { principal_due = sub s.principal_due paid; principal = sub s.principal paid },
    )

unfoldable pub pay_principal_advance : Money → CalculationState → Paid
pay_principal_advance payment s =
    let paid = min_money payment s.principal in
    (sub payment paid, record s { principal = sub s.principal paid })

-- payBucket at the bucket `interestDue`, the only one that it is called with.
unfoldable pub pay_interest : Money → CalculationState → Paid
pay_interest payment s =
    let paid = min_money payment s.interest_due in
    (sub payment paid, record s { interest_due = sub s.interest_due paid })

-- Up to collectability 2 interest comes first; above it, last.
unfoldable pub allocate : Money → ℤ → CalculationState → CalculationState
unfolding pay_interest pay_principal_due pay_principal_advance
allocate payment collectability s =
    let (rest, t) =
      if ltb_ℤ (pos 2) collectability
      then (let (p, a) = pay_principal_due payment s in
          let (q, b) = pay_principal_advance p a in pay_interest q b)
      else (let (p, a) = pay_interest payment s in
          let (q, b) = pay_principal_due p a in pay_principal_advance q b) in
    record t { unapplied = add t.unapplied rest }

-- The ending state is refused unless its balances are in order.
unfoldable pub finish : CalculationResult → CalculationState → Result CalculationResult
finish result s = do
  refuse
      (is_negative s.principal
        || is_negative s.principal_due
        || is_negative s.interest_due
        || is_negative s.unapplied
        || exceeds s.principal_due s.principal)
      invariant
  ok (record result {
    principal_outstanding = s.principal;
    principal_due = s.principal_due;
    interest_due = s.interest_due;
    unapplied_amount = s.unapplied;
  })

unfoldable pub validate_opening : OpeningLoanState → Result (Unit {0})
validate_opening o = do
  refuse
      (is_negative o.principal_outstanding
        || is_negative o.principal_due
        || is_negative o.interest_due
        || exceeds o.principal_due o.principal_outstanding)
      invariant
  refuse (ltb_ℤ o.collectability_bi (pos 1) || ltb_ℤ (pos 5) o.collectability_bi) invariant
