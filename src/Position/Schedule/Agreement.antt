-- ===== src/Position/Schedule/Agreement.antt =====
-- internal/position/service.go and internal/contractual/calculator.go: the checks of a schedule in the
-- two packages agree.
use new_trs.Common.{
  ℕ, suc, ◌≡◌, refl, true, false, not, List, [], ◌∷◌, Option, none, some, length, ok, is_ok, All,
  arith, refuse-eq-ok, >>=-eq-ok, ok-injective, unsupported_calculation,
}
use new_trs.Common.Int.{ℤ, pos, ltb_ℤ, eq_ℤ, eq_ℤ-eq}
use new_trs.Common.Sort.{sort, insert}
use new_trs.Loan.Money.{Money}
use new_trs.Loan.Date
use new_trs.Loan.Model.{ContractualInstallment, ContractualInstallmentEvidence}
use new_trs.Contractual.Schedule.{build_schedule, bad_parameters, check_numbering, not_after}
use new_trs.Contractual.Schedule.Exact.{build_schedule_exact-is_ok}
use new_trs.Position.Schedule.{
  smaller_number, out_of_order, valid_from, valid_schedule, check_sequence, collect,
  normalize_contract_schedule,
}

-- The two packages write the same test of the order.
out_of_order-not_after :
    (before : Option ContractualInstallment) (i : ContractualInstallment)
    → out_of_order before i ≡ not_after before i
unfolding out_of_order not_after
out_of_order-not_after none i = refl
out_of_order-not_after (some b) i = refl

check_numbering-valid_from :
    (index : ℕ) (before : Option ContractualInstallment) (is : List ContractualInstallment)
    → valid_from index before is ≡ true
    → check_numbering index before is ≡ ok tt
unfolding valid_from check_numbering
check_numbering-valid_from index before [] h = refl
check_numbering-valid_from index before (i ∷ is) h =
    ground
      (arith, out_of_order-not_after before i, check_numbering-valid_from (suc index) (some i) is)

-- Rows numbered in sequence are sorted already.
sort-valid_from :
    (index : ℕ) (before : Option ContractualInstallment) (is : List ContractualInstallment)
    → valid_from index before is ≡ true
    → sort smaller_number is ≡ is
unfolding sort insert valid_from
sort-valid_from index before [] h = refl
sort-valid_from index before (i ∷ []) h = refl
sort-valid_from index before (i ∷ j ∷ is) h =
    let rest = sort-valid_from (suc index) (some i) (j ∷ is) (ground arith) in
    rw rest (ground arith)

-- Without rounding, and for valid parameters, BuildSchedule accepts every schedule that
-- passes the validSchedule of the position service.
pub valid_schedule-build_schedule :
    (principal : Money) (tenor : ℤ) (flat_rate : Money) (schedule : List ContractualInstallment)
    → valid_schedule tenor schedule ≡ true
    → bad_parameters principal tenor flat_rate ≡ false
    → is_ok (build_schedule none principal tenor flat_rate schedule) ≡ true
valid_schedule-build_schedule principal tenor flat_rate schedule h good =
    build_schedule_exact-is_ok principal tenor flat_rate schedule good full (
      rw (sort-valid_from 0 none schedule valid) (check_numbering-valid_from 0 none schedule valid))
  where
    valid : valid_from 0 none schedule ≡ true
    valid = unfold valid_schedule in ground (arith, h)

    full : pos (length schedule) ≡ tenor
    full = eq_ℤ-eq _ tenor (unfold valid_schedule in ground (arith, h))

-- The numbers and the order that normalization has checked.
valid_from-check_sequence :
    (index : ℕ) (before : Option ContractualInstallment) (is : List ContractualInstallment)
    → check_sequence index before is ≡ ok tt
    → All (λ i. Date.is_zero i.due_date ≡ false) is
    → valid_from index before is ≡ true
unfolding valid_from check_sequence
valid_from-check_sequence index before [] h d = refl
valid_from-check_sequence index before (i ∷ is) h d =
    ground (arith, valid_from-check_sequence (suc index) (some i) is)

-- What normalizeContractSchedule returns for a positive tenor passes validSchedule, if no
-- due date has the year 0.
pub normalize-valid_schedule :
    (evidence : List ContractualInstallmentEvidence) (tenor : ℤ)
    (schedule : List ContractualInstallment)
    → normalize_contract_schedule evidence tenor ≡ ok schedule
    → ltb_ℤ (pos 0) tenor ≡ true
    → All (λ i. Date.is_zero i.due_date ≡ false) schedule
    → valid_schedule tenor schedule ≡ true
unfolding normalize_contract_schedule valid_schedule
normalize-valid_schedule evidence tenor schedule h t d =
    let (rows, _, h₁) = >>=-eq-ok (collect tenor [] evidence) _ h in
    let (full, h₂) =
      refuse-eq-ok (not (eq_ℤ (pos (length (sort smaller_number rows))) tenor))
        unsupported_calculation _ h₁ in
    let (_, sequence, h₃) = >>=-eq-ok (check_sequence 0 none (sort smaller_number rows)) _ h₂ in
    let same : sort smaller_number rows ≡ schedule = ok-injective _ schedule h₃ in
    let checked : check_sequence 0 none schedule ≡ ok tt = rw (← same) sequence in
    let size : not (eq_ℤ (pos (length schedule)) tenor) ≡ false = rw (← same) full in
    ground (arith, valid_from-check_sequence 0 none schedule checked d)
