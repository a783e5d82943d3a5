-- ===== src/Contractual/Schedule/Built.antt =====
-- internal/contractual/calculator.go: what BuildSchedule returns, and when it returns.
use new_trs.Common.{
  ℕ, suc, ◌<◌, ◌≡◌, true, false, not, ◌||◌, List, [], ◌∷◌, none, ok, length, All, map, invariant,
  unsupported_calculation, refuse-eq-ok, >>=-eq-ok, arith, ap, refl, ◌∙◌, sym,
}
use new_trs.Common.Int.{ℤ, pos, eq_ℤ, eq_ℤ-eq, eq_ℤ_refl}
use new_trs.Common.Sort.{sort}
use new_trs.Loan.Money.{Money, equal, is_zero, is_negative}
use new_trs.Loan.Money.Units.{At, common, equal-At, is_zero-At}
use new_trs.Loan.Model.{ContractualInstallment, ContractualScheduleRow}
use new_trs.Contractual.Schedule.{
  Rounding, round, build_schedule, bad_parameters, smaller_number, check_numbering,
  period_principal, period_interest, fill_rows,
}
use new_trs.Contractual.Schedule.Numbering.{
  InSequence, check_numbering-InSequence, installment_of, map-fill_rows,
}
use new_trs.Contractual.Schedule.Rows.{
  IsPayable, fill_rows-IsPayable, sum_principal, final_balance, fill_rows-sum-At,
}

-- The values that a successful call goes through.
pub record Built (rounding : Rounding) (principal : Money) (tenor : ℤ) (flat_rate : Money)
    (source : List ContractualInstallment) (rows : List ContractualScheduleRow) : Type 0 where
  pub good_parameters : bad_parameters principal tenor flat_rate ≡ false
  pub full_length : pos (length (sort smaller_number source)) ≡ tenor
  pub numbered : check_numbering 0 none (sort smaller_number source) ≡ ok tt
  pub per_period : Money
  pub interest : Money
  pub per_period_nonneg : is_negative per_period ≡ false
  pub interest_nonneg : is_negative interest ≡ false
  pub filled :
      fill_rows
        (length (sort smaller_number source))
        per_period
        interest
        0
        principal
        (sort smaller_number source)
      ≡ ok rows

pub build_schedule-Built :
    (rounding : Rounding) (principal : Money) (tenor : ℤ) (flat_rate : Money)
    (source : List ContractualInstallment) (rows : List ContractualScheduleRow)
    → build_schedule rounding principal tenor flat_rate source ≡ ok rows
    → Built rounding principal tenor flat_rate source rows
unfolding build_schedule
build_schedule-Built rounding principal tenor flat_rate source rows h =
    let (good, h₁) = refuse-eq-ok (bad_parameters principal tenor flat_rate) invariant _ h in
    let (full, h₂) =
      refuse-eq-ok (not (eq_ℤ (pos (length (sort smaller_number source))) tenor))
        unsupported_calculation _ h₁ in
    let (_, numbered, h₃) = >>=-eq-ok (check_numbering 0 none (sort smaller_number source)) _ h₂ in
    let (a, _, h₄) = >>=-eq-ok (period_principal principal tenor) _ h₃ in
    let (b, _, h₅) = >>=-eq-ok (period_interest principal flat_rate) _ h₄ in
    let (signs, filled) =
      refuse-eq-ok (is_negative (round rounding a) || is_negative (round rounding b)) invariant _
        h₅ in
    record {
      good_parameters = good;
      full_length = eq_ℤ-eq _ tenor (ground arith);
      numbered = numbered;
      per_period = round rounding a;
      interest = round rounding b;
      per_period_nonneg = ground arith;
      interest_nonneg = ground arith;
      filled = filled;
    }

module _ (rounding : Rounding) (principal : Money) (tenor : ℤ) (flat_rate : Money)
    (source : List ContractualInstallment) (rows : List ContractualScheduleRow) where
  -- The whole principal, and no more, is asked for, and nothing is left after the last row.
  pub Built-pays_off :
      Built rounding principal tenor flat_rate source rows
      → (equal (sum_principal rows) principal ≡ true)
        × (is_zero (final_balance principal rows) ≡ true)
  Built-pays_off b =
      let (d, hd, us) = common (principal ∷ b.per_period ∷ []) in
      let ((z, hz), ((p, hp), _)) = us in
      pays d hd z p hz hp (sort smaller_number source) some_rows b.filled
    where
      open b use {per_period, interest}

      some_rows : 0 < length (sort smaller_number source)
      some_rows = unfold bad_parameters in ground (arith, b.good_parameters, b.full_length)

      pays :
          (d : ℕ)
          → 0 < d
          → (z p : ℤ) → At d principal z
          → At d per_period p
          → (is : List ContractualInstallment) → 0 < length is
          → fill_rows (length is) per_period interest 0 principal is ≡ ok rows
          → (equal (sum_principal rows) principal ≡ true)
            × (is_zero (final_balance principal rows) ≡ true)
      pays d hd z p hz hp [] n h = elim n [ ]
      pays d hd z p hz hp (i ∷ is) n h =
          let (sum, final) =
            fill_rows-sum-At (suc (length is)) per_period interest d p hp 0 principal z i is rows
              (omega arith) hz h in
          (
            equal-At d hd _ z sum principal z hz ∙ eq_ℤ_refl z,
            is_zero-At d hd _ (pos 0) final ∙ eq_ℤ_refl (pos 0),
          )

-- What a built schedule promises.
pub record IsSchedule (principal : Money) (tenor : ℤ) (rows : List ContractualScheduleRow)
    : Type 0 where
  pub asks_for_principal : equal (sum_principal rows) principal ≡ true
  pub leaves_nothing : is_zero (final_balance principal rows) ≡ true
  pub row_for_each_month : pos (length rows) ≡ tenor
  -- Numbered from 1, dated, and due in strict order of date.
  pub in_sequence : InSequence 0 none (map installment_of rows)
  pub interest : Money
  pub interest_nonneg : is_negative interest ≡ false
  pub payable : All (IsPayable interest) rows

length-map_installment :
    (rows : List ContractualScheduleRow) → length (map installment_of rows) ≡ length rows
length-map_installment [] = refl
length-map_installment (r ∷ rows) = ap suc (length-map_installment rows)

-- A built schedule has one row for each month, numbered from 1 and strictly in order of
-- date; its principal adds up to the principal of the loan and leaves nothing; no principal,
-- balance or interest is negative, and each installment is principal plus the one interest.
pub build_schedule-IsSchedule :
    (rounding : Rounding) (principal : Money) (tenor : ℤ) (flat_rate : Money)
    (source : List ContractualInstallment) (rows : List ContractualScheduleRow)
    → build_schedule rounding principal tenor flat_rate source ≡ ok rows
    → IsSchedule principal tenor rows
build_schedule-IsSchedule rounding principal tenor flat_rate source rows h =
    let b = build_schedule-Built rounding principal tenor flat_rate source rows h in
    let installments = sort smaller_number source in
    let columns =
      map-fill_rows (length installments) b.per_period b.interest 0 principal installments rows
        b.filled in
    let (asks, leaves) = Built-pays_off rounding principal tenor flat_rate source rows b in
    record {
      asks_for_principal = asks;
      leaves_nothing = leaves;
      row_for_each_month =
          ap pos (sym (length-map_installment rows) ∙ ap length columns) ∙ b.full_length;
      in_sequence = rw columns (check_numbering-InSequence 0 none installments b.numbered);
      interest = b.interest;
      interest_nonneg = b.interest_nonneg;
      payable =
          fill_rows-IsPayable (length installments) b.per_period b.interest b.per_period_nonneg 0
            principal installments rows (unfold bad_parameters in ground (arith, b.good_parameters))
            b.filled;
    }
