-- ===== src/Contractual/Schedule/Numbering.antt =====
-- internal/contractual/calculator.go: what a built schedule promises of numbers and due dates.
use new_trs.Common.{
  ℕ, suc, ◌≡◌, false, not, ◌||◌, List, [], ◌∷◌, Option, some, ok, unsupported_calculation,
  refuse-eq-ok, arith, ok-injective, subst, refl, ap, map,
}
use new_trs.Common.Int.{pos, eq_ℤ, eq_ℤ-eq}
use new_trs.Loan.Money.{Money}
use new_trs.Loan.Date.{Date}
use new_trs.Loan.Date
use new_trs.Loan.Model.{ContractualInstallment, ContractualScheduleRow}
use new_trs.Contractual.Schedule.{check_numbering, not_after, fill_rows}
use new_trs.Contractual.Schedule.Rows.{fill_rows-cons}

-- The installments are numbered on from `index`, dated, and each is due after the one before.
abbrev pub InSequence : ℕ → Option ContractualInstallment → List ContractualInstallment → Type 0
InSequence index before [] = Unit
InSequence index before (i ∷ rest) =
    (i.number ≡ pos (suc index))
    × (Date.is_zero i.due_date ≡ false)
    × (not_after before i ≡ false)
    × InSequence (suc index) (some i) rest

pub check_numbering-InSequence :
    (index : ℕ) (before : Option ContractualInstallment) (is : List ContractualInstallment)
    → check_numbering index before is ≡ ok tt
    → InSequence index before is
unfolding check_numbering
check_numbering-InSequence index before [] h = tt
check_numbering-InSequence index before (i ∷ is) h =
    let (a, k) =
      refuse-eq-ok (not (eq_ℤ i.number (pos (suc index))) || Date.is_zero i.due_date)
        unsupported_calculation _ h in
    let (b, l) = refuse-eq-ok (not_after before i) unsupported_calculation _ k in
    (
      eq_ℤ-eq i.number (pos (suc index)) (ground arith),
      ground arith,
      b,
      check_numbering-InSequence (suc index) (some i) is l,
    )

-- The columns that the rows take from the installments.
abbrev pub installment_of : ContractualScheduleRow → ContractualInstallment
installment_of r = record { number = r.number; due_date = r.due_date }

module _ (tenor : ℕ) (per_period interest : Money) where
  pub map-fill_rows :
      (index : ℕ) (balance : Money) (is : List ContractualInstallment)
      (rows : List ContractualScheduleRow)
      → fill_rows tenor per_period interest index balance is ≡ ok rows
      → map installment_of rows ≡ is
  map-fill_rows index balance [] rows h =
      let e : ok [] ≡ ok rows = unfold fill_rows in h in
      subst (λ rs. map installment_of rs ≡ []) (ok-injective [] rows e) refl
  map-fill_rows index balance (i ∷ is) rows h =
      let (a, more, e, f) = fill_rows-cons tenor per_period interest index balance i is rows h in
      rw f (ap (λ js. i ∷ js) (map-fill_rows (suc index) _ is more e))
