-- ===== src/Contractual/Repayments.antt =====
-- internal/contractual/calculator.go: which repayments count (effectiveRepayments). Rows in the
-- window are sorted by date and source order, checked one by one, and a payment that the next row
-- reverses is dropped with it. The result of one round of the loop is a Verdict; the source writes
-- the kept rows over the front of the slice that it reads, always behind the reading index.
pub mod Kept
pub mod Net
use new_trs.Common.{
  ◌≡◌, refl, Bool, true, false, not, ◌&&◌, ◌||◌, if◌then◌else◌, List, [], ◌∷◌, Option, none, some,
  Result, ok, err, refuse, ◌>>◌, ◌>>=◌, keep, unsupported_repayment_reversal,
  unsupported_repayment_adjustment, historical_evidence, unsupported_calculation,
}
use new_trs.Common.Int.{ltb_ℤ}
use new_trs.Common.Sort.{sort}
use new_trs.Loan.Money.{Money, add, equal, is_negative, is_zero}
use new_trs.Loan.Date.{Date}
use new_trs.Loan.Date
use new_trs.Loan.Model.{Repayment}

unfoldable pub zero_repayment_components : Repayment → Bool
zero_repayment_components p =
    is_zero p.principal_component
    && is_zero p.interest_component
    && is_zero p.penalty_component
    && is_zero p.early_penalty_component
    && is_zero p.dwp_component

abbrev pub component_sum : Repayment → Money
component_sum p =
    add
      (add (add (add p.principal_component p.interest_component) p.penalty_component)
        p.early_penalty_component)
      p.dwp_component

unfoldable pub repayment_components_equal_total : Repayment → Bool
repayment_components_equal_total p = equal (component_sum p) p.total_payment

abbrev cancels : Money → Money → Bool
cancels x y = is_zero (add x y)

unfoldable pub exact_repayment_inverse : Repayment → Repayment → Bool
exact_repayment_inverse p n =
    cancels p.principal_component n.principal_component
    && cancels p.interest_component n.interest_component
    && cancels p.penalty_component n.penalty_component
    && cancels p.early_penalty_component n.early_penalty_component
    && cancels p.dwp_component n.dwp_component
    && cancels p.total_payment n.total_payment

-- After the cutoff, and not after the as-of date.
unfoldable pub in_window : Date → Date → Repayment → Bool
in_window cutoff as_of p = Date.after p.date cutoff && not (Date.after p.date as_of)

-- The comparison of the sort: date, then source order.
unfoldable pub earlier : Repayment → Repayment → Bool
earlier l r =
    Date.before l.date r.date
    || (not (Date.after l.date r.date) && ltb_ℤ l.source_order r.source_order)

-- The part of a payment that is allocated.
abbrev pub allocable : Repayment → Money
allocable p = add p.principal_component p.interest_component

pub data Verdict : Type 0 where
  skip skip_pair apply : Verdict

-- `index+1 < len(repayments) && repayments[index+1].TotalPayment.IsNegative()`.
unfoldable pub reversal_candidate : Option Repayment → Bool
reversal_candidate none = false
reversal_candidate (some n) = is_negative n.total_payment

-- The candidate fails to reverse the payment.
unfoldable pub bad_reversal : Repayment → Option Repayment → Bool
bad_reversal p none = false
bad_reversal p (some n) =
    is_negative n.total_payment
    && (not (Date.equal p.date n.date) || not (exact_repayment_inverse p n))

-- A row of no total must have no components.
unfoldable pub judge_zero : Repayment → Result Verdict
judge_zero p = do
  refuse (not (zero_repayment_components p)) unsupported_repayment_adjustment
  ok skip

unfoldable pub judge_unreversed : Repayment → Result Verdict
judge_unreversed p = do refuse (is_negative (allocable p)) unsupported_calculation; ok apply

unfoldable pub judge_positive : Repayment → Option Repayment → Result Verdict
unfolding judge_unreversed
judge_positive p next = do
  refuse (bad_reversal p next) unsupported_repayment_reversal
  refuse (not (repayment_components_equal_total p)) historical_evidence
  if reversal_candidate next then ok skip_pair else judge_unreversed p

-- One round of the loop on a row and the row after it.
unfoldable pub judge : Repayment → Option Repayment → Result Verdict
unfolding judge_zero judge_positive
judge p next = do
  refuse (is_negative p.total_payment) unsupported_repayment_reversal
  if is_zero p.total_payment then judge_zero p else judge_positive p next

unfoldable pub effective : List Repayment → Result (List Repayment)
effective [] = ok []
effective (p ∷ []) = judge p none >>= λ v. elim v [ apply ↦ ok (p ∷ []) | _ ↦ ok [] ]
effective (p ∷ n ∷ rest) = judge p (some n) >>= λ v. elim v [
  | skip ↦ effective (n ∷ rest)
  | skip_pair ↦ effective rest
  | apply ↦ effective (n ∷ rest) >>= λ more. ok (p ∷ more)
]

unfoldable pub effective_repayments : List Repayment → Date → Date → Result (List Repayment)
effective_repayments source cutoff as_of =
    effective (sort earlier (keep (in_window cutoff as_of) source))
