-- ===== src/Position/Schedule.antt =====
-- internal/position/service.go: the contractual schedule from the evidence of the core system
-- (normalizeContractSchedule), and the check before a reconstruction (validSchedule).
pub mod Agreement
use new_trs.Common.{
  ℕ, zero, suc, ◌≡◌, refl, Bool, true, false, not, ◌&&◌, ◌||◌, if◌then◌else◌, leb, List, [], ◌∷◌,
  Option, none, some, length, Result, ok, err, Error, refuse, ◌>>◌, ◌>>=◌, unsupported_calculation,
}
use new_trs.Common.Int.{ℤ, pos, ltb_ℤ, eq_ℤ}
use new_trs.Common.Sort.{sort}
use new_trs.Common.Text.{Text, trim_space}
use new_trs.Loan.Date.{Date}
use new_trs.Loan.Date
use new_trs.Loan.Date.Text.{parse_date}
use new_trs.Loan.Model.{ContractualInstallment, ContractualInstallmentEvidence}

unfoldable pub member : ℤ → List ℤ → Bool
member n [] = false
member n (m ∷ ms) = eq_ℤ n m || member n ms

abbrev take : ℕ → Text → Text
take zero s = []
take (suc n) [] = []
take (suc n) (c ∷ s) = c ∷ take n s

-- The date part of a raw due date: the first ten bytes of the trimmed text, if it has so many.
unfoldable pub date_part : Text → Text
date_part raw = let s = trim_space raw in if leb 10 (length s) then take 10 s else s

abbrev pub or_unsupported : Result Date → Result Date
or_unsupported (ok d) = ok d
or_unsupported (err e) = err unsupported_calculation

-- The loop over the evidence, with the numbers seen so far. Rows of number 0 are passed over.
unfoldable pub collect :
    ℤ → List ℤ → List ContractualInstallmentEvidence → Result (List ContractualInstallment)
collect tenor seen [] = ok []
collect tenor seen (row ∷ rest) =
    let passed = collect tenor seen rest in
    let later = collect tenor (row.number ∷ seen) rest in
    (do
      refuse (ltb_ℤ row.number (pos 0) || ltb_ℤ tenor row.number) unsupported_calculation
      elim (eq_ℤ row.number (pos 0)) [
        | true ↦ passed
        | false ↦ (do
          refuse (member row.number seen) unsupported_calculation
          date ← or_unsupported (parse_date (date_part row.raw_due_date))
          more ← later
          ok (record { number = row.number; due_date = date } ∷ more))
      ])

-- The date of an installment is not after that of the one before.
unfoldable pub out_of_order : Option ContractualInstallment → ContractualInstallment → Bool
out_of_order none i = false
out_of_order (some before) i = not (Date.after i.due_date before.due_date)

unfoldable pub check_sequence :
    ℕ → Option ContractualInstallment → List ContractualInstallment → Result (Unit {0})
check_sequence index before [] = ok tt
check_sequence index before (i ∷ rest) =
    let later = check_sequence (suc index) (some i) rest in
    (do
      refuse (not (eq_ℤ i.number (pos (suc index)))) unsupported_calculation
      refuse (out_of_order before i) unsupported_calculation
      later)

abbrev pub smaller_number : ContractualInstallment → ContractualInstallment → Bool
smaller_number l r = ltb_ℤ l.number r.number

unfoldable pub normalize_contract_schedule :
    List ContractualInstallmentEvidence → ℤ → Result (List ContractualInstallment)
normalize_contract_schedule source tenor = do
  rows ← collect tenor [] source
  let schedule = sort smaller_number rows
  refuse (not (eq_ℤ (pos (length schedule)) tenor)) unsupported_calculation
  check_sequence 0 none schedule
  ok schedule

-- The loop of validSchedule.
unfoldable pub valid_from : ℕ → Option ContractualInstallment → List ContractualInstallment → Bool
valid_from index before [] = true
valid_from index before (i ∷ rest) =
    eq_ℤ i.number (pos (suc index))
    && not (Date.is_zero i.due_date)
    && not (out_of_order before i)
    && valid_from (suc index) (some i) rest

unfoldable pub valid_schedule : ℤ → List ContractualInstallment → Bool
valid_schedule tenor schedule =
    ltb_ℤ (pos 0) tenor && eq_ℤ (pos (length schedule)) tenor && valid_from 0 none schedule
