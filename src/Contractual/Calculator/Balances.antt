-- ===== src/Contractual/Calculator/Balances.antt =====
-- internal/contractual/calculator.go: the balances stay in order through a whole reconstruction, so
-- that the check of the ending state never refuses one.
use new_trs.Common.{
  ◌≡◌, false, List, [], ◌∷◌, ok, All, All-imp, Bool-cases, inl, inr, >>=-eq-ok, ok-injective, arith,
  subst,
}
use new_trs.Common.Int.{ℤ}
use new_trs.Loan.Money.{Money, is_negative, is_positive, is_zero, add, sub}
use new_trs.Loan.Money.Order.{add_nonneg, min_nonneg, nonneg_of_positive, add-min_within}
use new_trs.Loan.Date.{Date}
use new_trs.Loan.Date
use new_trs.Loan.Model.{
  Repayment, ContractualScheduleRow, CollectabilityPoint, CalculationInput, CalculationTrace,
}
use new_trs.Contractual.State.{CalculationState}
use new_trs.Contractual.State.Invariant.{IsSound, allocate-IsSound}
use new_trs.Contractual.Repayments.{allocable}
use new_trs.Contractual.Schedule.{Rounding, build_schedule, bad_parameters}
use new_trs.Contractual.Schedule.Rows.{IsPayable, fill_rows-IsPayable}
use new_trs.Contractual.Schedule.Built.{build_schedule-Built}
use new_trs.Contractual.Timeline.{collectability_at}
use new_trs.Contractual.Calculator.{
  Run, accrue_row, accrue, accrue_through, skip_due, apply_amount, apply_payments,
}

-- A row that asks for no negative amount.
abbrev pub AsksNonneg : ContractualScheduleRow → Type 0
AsksNonneg r = (is_negative r.principal ≡ false) × (is_negative r.interest ≡ false)

accrue_row-IsSound :
    (r : ContractualScheduleRow) (s : CalculationState)
    → AsksNonneg r
    → IsSound s
    → IsSound (accrue_row r s)
unfolding accrue_row
accrue_row-IsSound r s (hp, hi) v = elim (Bool-cases (is_positive s.principal)) [
  | inr e ↦ rw e v
  | inl e ↦ elim (Bool-cases (is_positive (sub s.principal s.principal_due))) [
    | inr f ↦
        rw (e, f)
          (record {
            principal_due_nonneg = v.principal_due_nonneg;
            interest_due_nonneg = interest;
            unapplied_nonneg = v.unapplied_nonneg;
            due_within = v.due_within;
          })
    | inl f ↦
        rw (e, f)
          (record {
            principal_due_nonneg =
                add_nonneg _ _ v.principal_due_nonneg (min_nonneg _ _ hp (nonneg_of_positive _ f));
            interest_due_nonneg = interest;
            unapplied_nonneg = v.unapplied_nonneg;
            due_within = add-min_within s.principal_due s.principal r.principal;
          })
  ]
]
  where
    interest : is_negative (add s.interest_due r.interest) ≡ false
    interest = add_nonneg s.interest_due r.interest v.interest_due_nonneg hi

-- What a run keeps: balances in order, and pending rows that ask for no negative amount.
pub record IsOrderly (run : Run) : Type 0 where
  pub sound : IsSound run.state
  pub rows : All AsksNonneg run.pending

accrue-IsOrderly :
    (date : Date) (rows : List ContractualScheduleRow) (s : CalculationState) (t : CalculationTrace)
    → All AsksNonneg rows
    → IsSound s
    → IsOrderly (accrue date rows s t)
unfolding accrue
accrue-IsOrderly date [] s t h v = record { sound = v; rows = tt }
accrue-IsOrderly date (r ∷ rest) s t h v = elim (Bool-cases (Date.after r.due_date date)) [
  | inl e ↦ rw e (record { sound = v; rows = h })
  | inr e ↦ rw e (accrue-IsOrderly date rest _ _ h.1 (accrue_row-IsSound r s h.0 v))
]

pub accrue_through-IsOrderly :
    (date : Date) (run : Run) → IsOrderly run → IsOrderly (accrue_through date run)
unfolding accrue_through
accrue_through-IsOrderly date run o =
    accrue-IsOrderly date run.pending run.state run.trace o.rows o.sound

apply_amount-IsOrderly :
    (x : Money) (c : ℤ) (date : Date) (run : Run)
    → is_negative x ≡ false
    → IsOrderly run
    → IsOrderly (apply_amount x c date run)
unfolding apply_amount
apply_amount-IsOrderly x c date run hx o = elim (Bool-cases (is_zero x)) [
  | inl e ↦ rw e o
  | inr e ↦ rw e (record { sound = allocate-IsSound x c run.state hx o.sound; rows = o.rows })
]

pub apply_payments-IsOrderly :
    (opening : ℤ) (timeline : List CollectabilityPoint) (ps : List Repayment) (run last : Run)
    → All (λ p. is_negative (allocable p) ≡ false) ps
    → IsOrderly run
    → apply_payments opening timeline ps run ≡ ok last
    → IsOrderly last
unfolding apply_payments
apply_payments-IsOrderly opening timeline [] run last hs o h =
    subst IsOrderly (ok-injective run last h) o
apply_payments-IsOrderly opening timeline (p ∷ ps) run last hs o h =
    let (c, _, k) = >>=-eq-ok (collectability_at opening timeline p.date) _ h in
    apply_payments-IsOrderly opening timeline ps _ last hs.1
      (apply_amount-IsOrderly (allocable p) c p.date _ hs.0 (accrue_through-IsOrderly p.date run o))
      k

pub skip_due-All :
    (cutoff : Date) (rows : List ContractualScheduleRow)
    → All AsksNonneg rows
    → All AsksNonneg (skip_due cutoff rows)
unfolding skip_due
skip_due-All cutoff [] h = tt
skip_due-All cutoff (r ∷ rest) h = ground (arith, skip_due-All cutoff rest h.1)

-- The rows of a built schedule.
pub Built-AsksNonneg :
    (rounding : Rounding) (input : CalculationInput) (rows : List ContractualScheduleRow)
    → build_schedule rounding input.contractual_principal input.tenor_months input.flat_rate_percent
        input.contract_schedule
      ≡ ok rows
    → All AsksNonneg rows
Built-AsksNonneg rounding input rows h =
    let b = build_schedule-Built rounding _ _ _ _ rows h in
    All-imp (IsPayable b.interest) AsksNonneg
      (λ r p. (p.principal_nonneg, rw p.interest_same b.interest_nonneg)) rows
      (fill_rows-IsPayable _ b.per_period b.interest b.per_period_nonneg 0 _ _ rows
        (principal_nonneg b.good_parameters) b.filled)
  where
    principal_nonneg :
        bad_parameters input.contractual_principal input.tenor_months input.flat_rate_percent
          ≡ false
        → is_negative input.contractual_principal ≡ false
    principal_nonneg g = unfold bad_parameters in ground (arith, g)
