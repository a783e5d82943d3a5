-- ===== src/Fincloud/Contract.antt =====
-- internal/fincloud/loan.go: the loan that the new core system describes, as a contract. The location of
-- the dates is always given.
use new_trs.Common.{
  ℕ, suc, ◌-◌, ◌^◌, Bool, false, not, ◌&&◌, ◌||◌, leb, ◌==◌, if◌then◌else◌, List, [], ◌∷◌, map,
  length, some, Result, ok, err, joined, foreign, fincloud_unavailable, refuse, ◌>>◌, ◌>>=◌,
}
use new_trs.Common.Int.{ℤ, pos}
use new_trs.Common.Text.{Text, is_digit, is_empty, trim_space}
use new_trs.Loan.Date.{Date, no_date, equal}
use new_trs.Loan.Date.Text.{parse_date}
use new_trs.Loan.Money.{Money, zero_money}
use new_trs.Loan.Money.Decimal.{digits_value, parse_money}
use new_trs.Loan.Model.{ContractData, ContractualInstallmentEvidence, Repayment}
use new_trs.Fincloud.Decimal.{normalize_decimal}

-- A string or a number; a missing member and null are empty.
pub record Scalar : Type 0 where
  pub value : Text
  pub present : Bool

pub record ScheduleDto : Type 0 where
  pub date : Text
  pub installment_no : ℤ
  pub payment_status : Text

pub record RepaymentDto : Type 0 where
  pub date : Text
  pub principal : Scalar
  pub interest : Scalar
  pub penalty : Scalar
  pub early_penalty : Scalar
  pub dwp : Scalar
  pub total : Scalar
  pub journal_number : Text

pub record LoanDto : Type 0 where
  pub id : Text
  pub no_alt : Text
  pub cif : Text
  pub cif_number : Text
  pub customer_name : Text
  pub branch : Text
  pub product : Text
  pub plafond_limit : Scalar
  pub tenor : Scalar
  pub flat_rate : Scalar
  pub reference_rate : Scalar
  pub collectability : ℤ
  pub principal_due : Scalar
  pub interest_due : Scalar
  pub penalty_due : Scalar
  pub status : Text
  pub close_date_legacy : Text
  pub close_date_object : Text
  pub schedule : List ScheduleDto
  pub repayments : List RepaymentDto

-- errors.Join(ErrFincloudUnavailable, err).
unfoldable pub unavailable {ℓ} : {A : Type ℓ} → Result A → Result A
unavailable (err e) = err (joined fincloud_unavailable e)
unavailable (ok a) = ok a

unfoldable pub money_of : Text → Result Money
money_of raw = unavailable (normalize_decimal raw >>= parse_money)

abbrev pub is_missing : Scalar → Bool
is_missing s = not s.present || is_empty (trim_space s.value)

unfoldable pub required_money : Scalar → Result Money
required_money s = refuse (is_missing s) (joined fincloud_unavailable foreign) >> money_of s.value

unfoldable pub optional_money : Scalar → Result Money
optional_money s = if is_missing s then ok zero_money else money_of s.value

abbrev pub first_bytes : ℕ → Text → Text
first_bytes n [] = []
first_bytes n (c ∷ s) = if n == 0 then [] else c ∷ first_bytes (n - 1) s

-- The day of a date or of an instant.
unfoldable pub day_of : Text → Result Date
day_of raw = parse_date (first_bytes 10 (trim_space raw))

-- The first digits of the text.
unfoldable pub leading_digits : Text → Text
leading_digits [] = []
leading_digits (c ∷ s) = if is_digit c then c ∷ leading_digits s else []

unfoldable pub first_number : Text → Text
first_number [] = []
first_number (c ∷ s) = if is_digit c then leading_digits (c ∷ s) else first_number s

unfoldable pub tenor_of : Scalar → Result ℕ
tenor_of s =
    let found = first_number (trim_space s.value) in
    let tenor = digits_value 0 found in
    refuse (not s.present || is_empty found || leb (2 ^ 63) tenor || (tenor == 0))
      (joined fincloud_unavailable foreign)
    >> ok tenor

-- The date of the legacy field must not contradict that of the object, if it is a date.
unfoldable pub conflicts : Date → Result Date → Bool
conflicts d (err e) = false
conflicts d (ok legacy) = not (equal legacy d)

unfoldable pub close_date : Text → Text → Result Date
close_date object legacy =
    if is_empty object
    then (if is_empty legacy then ok no_date else unavailable (day_of legacy))
    else (unavailable (day_of object) >>= λ d.
        refuse (not (is_empty legacy) && conflicts d (day_of legacy))
          (joined fincloud_unavailable foreign)
        >> ok d)

unfoldable pub evidence_of : ScheduleDto → ContractualInstallmentEvidence
evidence_of row = record {
  number = row.installment_no;
  raw_due_date = row.date;
  raw_payment_status = row.payment_status;
}

unfoldable pub repayment_of : ℕ → RepaymentDto → Result Repayment
repayment_of position row = do
  date ← unavailable (day_of row.date)
  principal ← required_money row.principal
  interest ← required_money row.interest
  total ← required_money row.total
  penalty ← optional_money row.penalty
  early_penalty ← optional_money row.early_penalty
  dwp ← optional_money row.dwp
  ok (record {
    date = date;
    principal_component = principal;
    interest_component = interest;
    penalty_component = penalty;
    early_penalty_component = early_penalty;
    dwp_component = dwp;
    total_payment = total;
    journal_number = trim_space row.journal_number;
    source_order = pos position;
  })

unfoldable pub repayments_of : ℕ → List RepaymentDto → Result (List Repayment)
repayments_of position [] = ok []
repayments_of position (row ∷ rest) = do
  r ← repayment_of position row
  later ← repayments_of (suc position) rest
  ok (r ∷ later)

unfoldable pub map_loan : LoanDto → Result ContractData
map_loan source = do
  principal ← required_money source.plafond_limit
  flat_rate ← required_money source.flat_rate
  reference_rate ← optional_money source.reference_rate
  principal_due ← optional_money source.principal_due
  interest_due ← optional_money source.interest_due
  penalty_due ← optional_money source.penalty_due
  tenor ← tenor_of source.tenor
  closed ← close_date (trim_space source.close_date_object) (trim_space source.close_date_legacy)
  repayments ← repayments_of 0 source.repayments
  ok (record {
    primary_account = trim_space source.id;
    alternate_account = trim_space source.no_alt;
    cif =
        if is_empty (trim_space source.cif)
        then trim_space source.cif_number
        else trim_space source.cif;
    customer_name = trim_space source.customer_name;
    branch = trim_space source.branch;
    product = trim_space source.product;
    plafond_limit = principal;
    tenor_months = pos tenor;
    flat_rate_percent = flat_rate;
    reference_rate_percent = reference_rate;
    current_collectability = source.collectability;
    current_principal_due = principal_due;
    current_interest_due = interest_due;
    penalty_due = penalty_due;
    status = trim_space source.status;
    close_date = closed;
    raw_schedule_count = pos (length source.schedule);
    contract_schedule_evidence = some (map evidence_of source.schedule);
    contract_schedule = [];
    repayments = repayments;
  })
